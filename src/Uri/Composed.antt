-- ===== src/Uri/Composed.antt =====
-- uri_resolve() of common/lib/uri.c on the text of a URI.
use mathlib.Core.List.{append-nil}
use limine_eucleia.Prelude.{
  ℕ, ◌+◌, ◌<◌, ◌≡◌, ◌∙◌, ap, refl, Bool, true, false, ◌&&◌, Option, none, some, List, [], ◌∷◌, ◌++◌,
  arith, ltb, ◌==◌, if◌then◌else◌, length, length-append, Bool-cases, inl, inr, ok, panic,
}
use limine_eucleia.Uri.Resolve.{
  prepend, split_resource, split_root, split_hash, is_hexadecimal, all_hexadecimal, Uri, hashed,
  at_path, at_root, at_resource, uri_resolve,
}

abbrev pub Without : ℕ → List ℕ → Type 0
Without k [] = Unit
Without k (c ∷ s) = ((c == k) ≡ false) × Without k s

and-second : (a b : Bool) → a ≡ true → (a && b) ≡ true → b ≡ true
and-second true b q h = h
and-second false b q h = cc

and-refuted : (a b : Bool) → a ≡ false → (a && b) ≡ true → ⊥
and-refuted true b q h = cc
and-refuted false b q h = cc

split_resource-append :
    (r s : List ℕ) → Without b'(' r → split_resource (r ++ b'(' ∷ s) ≡ some (r, s)
unfolding split_resource
split_resource-append [] s h = refl
split_resource-append (c ∷ r) s h = rw h.0 (ap (prepend c) (split_resource-append r s h.1))

long-enough : (r s : List ℕ) → ltb (length (r ++ b')' ∷ b':' ∷ b'/' ∷ s)) 3 ≡ false
long-enough r s = ground (arith, length-append r (b')' ∷ b':' ∷ b'/' ∷ s))

split_root-append :
    (r s : List ℕ) → Without b')' r → split_root (r ++ b')' ∷ b':' ∷ b'/' ∷ s) ≡ some (r, s)
unfolding split_root
split_root-append [] s h = rw (long-enough [] s) refl
split_root-append (c ∷ r) s h =
    rw (long-enough (c ∷ r) s) (rw h.0 (ap (prepend c) (split_root-append r s h.1)))

split_hash-none : (s : List ℕ) → Without b'#' s → split_hash s ≡ none
unfolding split_hash
split_hash-none [] h = refl
split_hash-none (c ∷ s) h = rw (split_hash-none s h.1) (rw h.0 refl)

split_hash-append : (p h : List ℕ) → Without b'#' h → split_hash (p ++ b'#' ∷ h) ≡ some (p, h)
unfolding split_hash
split_hash-append [] h w = rw (split_hash-none h w) refl
split_hash-append (c ∷ p) h w = rw (split_hash-append p h w) refl

digit-hash : (c : ℕ) → is_hexadecimal c ≡ true → (c == b'#') ≡ false
digit-hash c h = ground (arith, h)

all_hexadecimal-Without : (s : List ℕ) → all_hexadecimal s ≡ true → Without b'#' s
unfolding all_hexadecimal
all_hexadecimal-Without [] h = tt
all_hexadecimal-Without (c ∷ s) h = elim (Bool-cases (is_hexadecimal c)) [
  | inl q ↦ (
    digit-hash c q,
    all_hexadecimal-Without s (and-second (is_hexadecimal c) (all_hexadecimal s) q h),
  )
  | inr q ↦ absurd (and-refuted (is_hexadecimal c) (all_hexadecimal s) q h)
]

fits : (n : ℕ) → n < 4096 → ltb 4096 (n + 1) ≡ false
fits n l = ground (arith, l)

-- The text of a URI.
abbrev pub hash_text : Option (List ℕ) → List ℕ
hash_text none = []
hash_text (some h) = b'#' ∷ h

abbrev pub uri_text : Uri → List ℕ
uri_text u = u.resource ++ (b'(' ∷ (u.root ++ (b')' ∷ b':' ∷ b'/' ∷ (u.path ++ hash_text u.hash))))

-- A path without a hash has no `#`; a hash is 128 hexadecimal digits.
abbrev pub Hash : List ℕ → Option (List ℕ) → Type 0
Hash path none = Without b'#' path
Hash path (some h) = (length h ≡ 128) × (all_hexadecimal h ≡ true)

at_path-text :
    (resource root : List ℕ) (c : ℕ) (path : List ℕ) (hash : Option (List ℕ))
    → Hash (c ∷ path) hash
    → at_path resource root (c ∷ path ++ hash_text hash)
      ≡ ok (some (record { resource = resource; root = root; path = c ∷ path; hash = hash }))
at_path-text resource root c path none h =
    ap (at_path resource root) (append-nil (c ∷ path))
    ∙ ap (hashed resource root (c ∷ path)) (split_hash-none (c ∷ path) h)
at_path-text resource root c path (some x) h =
    ap (hashed resource root (c ∷ path ++ b'#' ∷ x))
      (split_hash-append (c ∷ path) x (all_hexadecimal-Without x h.1))
    ∙ rw h.0 (rw h.1 refl)

abbrev NonEmpty : List ℕ → Type 0
NonEmpty [] = ⊥
NonEmpty (c ∷ s) = Unit

-- A resource without an opening and a root without a closing parenthesis, a path, and what follows.
abbrev pub Parts : Uri → Type 0
Parts u = Without b'(' u.resource × Without b')' u.root × NonEmpty u.path × Hash u.path u.hash

at_path-parts :
    (resource root path : List ℕ) (hash : Option (List ℕ))
    → NonEmpty path
    → Hash path hash
    → at_path resource root (path ++ hash_text hash)
      ≡ ok (some (record { resource = resource; root = root; path = path; hash = hash }))
at_path-parts resource root [] hash n h = absurd n
at_path-parts resource root (c ∷ path) hash n h = at_path-text resource root c path hash h

-- uri_resolve() reads back the parts of a URI from their text, where that is shorter than 4096
-- characters, the resource has no opening and the root no closing parenthesis, the path is not
-- empty, and the hash is 128 hexadecimal digits, or absent from a path without a number sign.
pub uri_resolve-uri_text :
    (u : Uri) → Parts u → length (uri_text u) < 4096 → uri_resolve (uri_text u) ≡ ok (some u)
unfolding uri_resolve
uri_resolve-uri_text u h l =
    let tail = u.path ++ hash_text u.hash in
    let behind = u.root ++ b')' ∷ b':' ∷ b'/' ∷ tail in
    ap (λ t. if t then panic else at_resource (split_resource (uri_text u)))
      (fits (length (uri_text u)) l)
    ∙ ap at_resource (split_resource-append u.resource behind h.0)
    ∙ ap (at_root u.resource) (split_root-append u.root tail h.1)
    ∙ at_path-parts u.resource u.root u.path u.hash h.2 h.3
