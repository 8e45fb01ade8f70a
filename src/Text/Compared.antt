-- ===== src/Text/Compared.antt =====
-- What the comparisons of common/lib/libc.s2.c compare.
use Prim.Native.Nat.{eq}
use limine_eucleia.Prelude.{
  ℕ, zero, suc, ◌≡◌, ◌↔◌, refl, List, [], ◌∷◌, map, take, arith, ◌==◌, ==_iff, Bool-cases, inl, inr,
}
use limine_eucleia.Text.Chars.{tolower}
use limine_eucleia.Text.Strings.{strcmp, strcasecmp, strncmp, strncasecmp}

-- Equal strings, and only those, compare as equal.
pub strcmp-eq : (a b : List ℕ) → (strcmp a b ≡ eq) ↔ (a ≡ b)
unfolding strcmp
strcmp-eq [] [] = (λ h. refl, λ h. refl)
strcmp-eq [] (d ∷ b) = (λ h. cc, λ h. cc)
strcmp-eq (c ∷ a) [] = (λ h. cc, λ h. cc)
strcmp-eq (c ∷ a) (d ∷ b) = elim (Bool-cases (c == d)) [
  | inl q ↦ rw q (λ h. cc ((strcmp-eq a b).0 h, (==_iff c d).0 q), λ h. (strcmp-eq a b).1 (cc h))
  | inr q ↦ (λ h. ground (arith, q, h), λ h. ground (arith, q, h))
]

-- The comparisons that disregard the case compare the strings in lower case, and those with a bound
-- the strings up to it.
pub strcasecmp-strcmp : (a b : List ℕ) → strcasecmp a b ≡ strcmp (map tolower a) (map tolower b)
unfolding strcasecmp strcmp
strcasecmp-strcmp [] [] = refl
strcasecmp-strcmp [] (d ∷ b) = refl
strcasecmp-strcmp (c ∷ a) [] = refl
strcasecmp-strcmp (c ∷ a) (d ∷ b) = rw (strcasecmp-strcmp a b) refl

pub strncmp-strcmp : (n : ℕ) (a b : List ℕ) → strncmp a b n ≡ strcmp (take n a) (take n b)
unfolding strncmp strcmp
strncmp-strcmp zero a b = refl
strncmp-strcmp (suc n) [] [] = refl
strncmp-strcmp (suc n) [] (d ∷ b) = refl
strncmp-strcmp (suc n) (c ∷ a) [] = refl
strncmp-strcmp (suc n) (c ∷ a) (d ∷ b) = rw (strncmp-strcmp n a b) refl

-- strncasecmp() is strcmp() on the first characters of both texts, in lower case.
pub strncasecmp-strcmp :
    (n : ℕ) (a b : List ℕ)
    → strncasecmp a b n ≡ strcmp (map tolower (take n a)) (map tolower (take n b))
unfolding strncasecmp strcmp
strncasecmp-strcmp zero a b = refl
strncasecmp-strcmp (suc n) [] [] = refl
strncasecmp-strcmp (suc n) [] (d ∷ b) = refl
strncasecmp-strcmp (suc n) (c ∷ a) [] = refl
strncasecmp-strcmp (suc n) (c ∷ a) (d ∷ b) = rw (strncasecmp-strcmp n a b) refl
