-- ===== src/Config/Table.antt =====
-- The sizes that smbios_struct_size() of common/lib/config.c finds.
use limine_eucleia.Prelude.{
  ℕ, zero, suc, ◌+◌, ◌≤◌, ◌≡◌, ◌⊎◌, ◌∙◌, ap, sym, refl, true, false, ◌&&◌, Option, none, some, List,
  [], ◌∷◌, arith, ltb, ◌==◌, leb, Result, ok, panic, Returns, Returns-if, if◌then◌else◌, length,
  drop, Bool-cases, inl, inr,
}
use limine_eucleia.Config.Smbios.{
  double_nul, header_size, struct_length, size_with, smbios_struct_size, reads,
}

-- The first two NUL characters that follow each other stand behind this many characters.
abbrev pub AreaEnd : List ℕ → ℕ → Type 0
AreaEnd [] k = ⊥
AreaEnd (a ∷ []) k = ⊥
AreaEnd (a ∷ b ∷ s) zero = (a ≡ 0) × (b ≡ 0)
AreaEnd (a ∷ b ∷ s) (suc k) = ¬ ((a ≡ 0) × (b ≡ 0)) × AreaEnd (b ∷ s) k

AreaEnd-length : (s : List ℕ) (k : ℕ) → AreaEnd s k → k + 2 ≤ length s
AreaEnd-length [] k h = absurd h
AreaEnd-length (a ∷ []) k h = absurd h
AreaEnd-length (a ∷ b ∷ s) zero h = omega arith
AreaEnd-length (a ∷ b ∷ s) (suc k) h = omega (arith, AreaEnd-length (b ∷ s) k h.1)

double_nul-here :
    (i a b : ℕ) (s : List ℕ) → (a == 0 && b == 0) ≡ true → double_nul i (a ∷ b ∷ s) ≡ some i
unfolding double_nul
double_nul-here i a b s q = rw q refl

double_nul-next :
    (i a b : ℕ) (s : List ℕ)
    → (a == 0 && b == 0) ≡ false
    → double_nul i (a ∷ b ∷ s) ≡ double_nul (suc i) (b ∷ s)
unfolding double_nul
double_nul-next i a b s q = rw q refl

double_nul-AreaEnd :
    (i : ℕ) (s : List ℕ) (j : ℕ) → double_nul i s ≡ some j → (k : ℕ) × (j ≡ i + k) × AreaEnd s k
unfolding double_nul
double_nul-AreaEnd i [] j h = cc
double_nul-AreaEnd i (a ∷ []) j h = cc
double_nul-AreaEnd i (a ∷ b ∷ s) j h = elim (Bool-cases (a == 0 && b == 0)) [
  | inl q ↦
      let here : some i ≡ some j = sym (double_nul-here i a b s q) ∙ h in
      let e : i ≡ j = cc here in (0, omega (arith, e), (ground (arith, q), ground (arith, q)))
  | inr q ↦
      let (k, e, p) = double_nul-AreaEnd (suc i) (b ∷ s) j (sym (double_nul-next i a b s q) ∙ h) in
      (suc k, omega (arith, e), (λ z. ground (arith, q, z.0, z.1), p))
]

AreaEnd-double_nul : (i : ℕ) (s : List ℕ) (k : ℕ) → AreaEnd s k → double_nul i s ≡ some (i + k)
AreaEnd-double_nul i [] k h = absurd h
AreaEnd-double_nul i (a ∷ []) k h = absurd h
AreaEnd-double_nul i (a ∷ b ∷ s) zero h =
    double_nul-here i a b s (ground (arith, h.0, h.1)) ∙ ap some (omega arith)
AreaEnd-double_nul i (a ∷ b ∷ s) (suc k) h = elim (Bool-cases (a == 0 && b == 0)) [
  | inl q ↦ absurd (h.0 (ground (arith, q), ground (arith, q)))
  | inr q ↦
      double_nul-next i a b s q ∙ AreaEnd-double_nul (suc i) (b ∷ s) k h.1 ∙ ap some (omega arith)
]

-- A structure of a size begins the text: its header has a length of at least 4, and the area of its
-- strings ends with two NUL characters.
pub record Fits (s : List ℕ) (size : ℕ) : Type 0 where
  pub headed : header_size ≤ struct_length s
  pub within : struct_length s ≤ length s
  pub strings : ℕ
  pub ended : AreaEnd (drop (struct_length s) s) strings
  pub size_eq : size ≡ struct_length s + strings + 2

drop-length : (n : ℕ) (s : List ℕ) → n ≤ length s → length (drop n s) + n ≡ length s
drop-length zero s h = omega arith
drop-length (suc n) [] h = absurd (omega (arith, h))
drop-length (suc n) (c ∷ s) h = omega (arith, drop-length n s (omega (arith, h)))

pub Fits-length : (s : List ℕ) (size : ℕ) → Fits s size → size ≤ length s
Fits-length s size f = omega (
  arith,
  f.size_eq,
  AreaEnd-length (drop (struct_length s) s) (f.strings) (f.ended),
  drop-length (struct_length s) s f.within,
)

size_with-Fits :
    (s : List ℕ) (o : Option ℕ)
    → double_nul 1 (drop (struct_length s) s) ≡ o
    → header_size ≤ struct_length s
    → struct_length s ≤ length s
    → (size_with (struct_length s) o ≡ 0) ⊎ Fits s (size_with (struct_length s) o)
size_with-Fits s none e h l = inl refl
size_with-Fits s (some j) e h l =
    let (k, q, p) = double_nul-AreaEnd 1 (drop (struct_length s) s) j e in
    inr (record { headed = h; within = l; strings = k; ended = p; size_eq = omega (arith, q) })

-- A read in the table is made.
pub Returns-reads {ℓ} :
    {A : Type ℓ} (n : ℕ) (s : List ℕ) (r : Result A) (P : A → Type 0)
    → n ≤ length s
    → Returns r P
    → Returns (reads n s r) P
Returns-reads n s r P l h =
    Returns-if (leb n (length s)) r panic P (λ q. h) (λ q. absurd (ground (arith, q, l)))

-- 0, or the size of the structure that begins the text.
abbrev pub Sized : List ℕ → ℕ → Type 0
Sized s n = (n ≡ 0) ⊎ Fits s n

-- No read is outside the text; the size is 0, or a structure of the size begins the text.
pub smbios_struct_size-Fits : (s : List ℕ) → Returns (smbios_struct_size s) (Sized s)
unfolding smbios_struct_size
smbios_struct_size-Fits s =
    let n = struct_length s in
    let none_here : Result ℕ = ok 0 in
    let size : Result ℕ = ok (size_with n (double_nul 1 (drop n s))) in
    let long : Result ℕ = if ltb (length s) n then none_here else reads n s size in
    let headed : Result ℕ = if ltb n header_size then none_here else long in
    Returns-if (ltb (length s) header_size) none_here (reads header_size s headed) (Sized s)
      (λ q. inl refl)
      (λ q. Returns-reads header_size s headed (Sized s) (ground (arith, q)) (
        Returns-if (ltb n header_size) none_here long (Sized s) (λ r. inl refl)
          (λ r.
            Returns-if (ltb (length s) n) none_here (reads n s size) (Sized s) (λ u. inl refl)
              (λ u. Returns-reads n s size (Sized s) (ground (arith, u)) (
                size_with-Fits s (double_nul 1 (drop n s)) refl (ground (arith, r))
                  (ground (arith, u)))))))

no_less : (a b : ℕ) → b ≤ a → ltb a b ≡ false
no_less a b l = ground (arith, l)

at_most : (a b : ℕ) → a ≤ b → leb a b ≡ true
at_most a b l = ground (arith, l)

-- There is one size, which smbios_struct_size() finds.
pub Fits-size : (s : List ℕ) (size : ℕ) → Fits s size → smbios_struct_size s ≡ ok size
unfolding smbios_struct_size
Fits-size s size f =
    let n = struct_length s in
    let l : header_size ≤ length s = omega (arith, f.headed, f.within) in
    rw (no_less (length s) header_size l, at_most header_size (length s) l)
      (rw (no_less n header_size (f.headed)) (
        rw (no_less (length s) n (f.within), at_most n (length s) (f.within))
          (rw (AreaEnd-double_nul 1 (drop n s) (f.strings) (f.ended))
            (ap ok (omega (arith, f.size_eq))))))
