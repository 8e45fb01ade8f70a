-- ===== src/Disk/Bytes.antt =====
-- Parts of a disk as lists of its bytes.
use limine_eucleia.Prelude.{
  ℕ, zero, suc, ◌+◌, ◌-◌, ◌≤◌, ◌<◌, ◌≡◌, ◌∙◌, ap, refl, List, [], ◌∷◌, ◌++◌, arith, length, take,
  drop,
}

-- So many bytes from an address on.
abbrev pub bytes_from : (byte : ℕ → ℕ) (start n : ℕ) → List ℕ
bytes_from byte start zero = []
bytes_from byte start (suc n) = byte start ∷ bytes_from byte (start + 1) n

module _ (byte : ℕ → ℕ) where
  pub length-bytes_from : (start n : ℕ) → length (bytes_from byte start n) ≡ n
  length-bytes_from start zero = refl
  length-bytes_from start (suc n) = ap suc (length-bytes_from (start + 1) n)

  -- Two parts that meet are one.
  pub bytes_from-append :
      (start n m : ℕ)
      → bytes_from byte start n ++ bytes_from byte (start + n) m ≡ bytes_from byte start (n + m)
  bytes_from-append start zero m = rw (plus_zero start) (rw (zero_plus m) refl)
    where
      plus_zero : (a : ℕ) → a + 0 ≡ a
      plus_zero a = omega arith

      zero_plus : (a : ℕ) → 0 + a ≡ a
      zero_plus a = omega arith
  bytes_from-append start (suc n) m =
      let next : start + suc n ≡ start + 1 + n = omega arith in
      let more : suc n + m ≡ suc (n + m) = omega arith in
      rw (next, more) (ap (λ (t : List ℕ). byte start ∷ t) (bytes_from-append (start + 1) n m))

  -- A part of a part, whatever follows.
  pub drop-bytes_from :
      (k n start : ℕ) (rest : List ℕ)
      → k ≤ n
      → drop k (bytes_from byte start n ++ rest) ≡ bytes_from byte (start + k) (n - k) ++ rest
  drop-bytes_from zero n start rest h =
      let same : start + 0 ≡ start = omega arith in
      let all : n - 0 ≡ n = omega arith in rw (same, all) refl
  drop-bytes_from (suc k) zero start rest h = absurd (omega arith)
  drop-bytes_from (suc k) (suc n) start rest h =
      let next : start + suc k ≡ start + 1 + k = omega arith in
      let less : suc n - suc k ≡ n - k = omega arith in
      rw (next, less) (drop-bytes_from k n (start + 1) rest (omega arith))

  pub take-bytes_from :
      (k n start : ℕ) (rest : List ℕ)
      → k ≤ n
      → take k (bytes_from byte start n ++ rest) ≡ bytes_from byte start k
  take-bytes_from zero n start rest h = refl
  take-bytes_from (suc k) zero start rest h = absurd (omega arith)
  take-bytes_from (suc k) (suc n) start rest h =
      ap (λ (t : List ℕ). byte start ∷ t) (take-bytes_from k n (start + 1) rest (omega arith))

  pub cut-bytes_from :
      (k m n start : ℕ) (rest : List ℕ)
      → k + m ≤ n
      → take m (drop k (bytes_from byte start n ++ rest)) ≡ bytes_from byte (start + k) m
  cut-bytes_from k m n start rest h =
      ap (take m) (drop-bytes_from k n start rest (omega arith))
      ∙ take-bytes_from m (n - k) (start + k) rest (omega arith)

-- Two ways to number the same bytes.
pub bytes_from-same :
    (f g : ℕ → ℕ) (s t n : ℕ)
    → ((i : ℕ) → i < n → f (s + i) ≡ g (t + i))
    → bytes_from f s n ≡ bytes_from g t n
bytes_from-same f g s t zero h = refl
bytes_from-same f g s t (suc n) h =
    let first : f s ≡ g t = rw (plus_zero s, plus_zero t) at (h 0 (omega arith)) in
    rw first (
      ap (λ (bs : List ℕ). g t ∷ bs)
        (bytes_from-same f g (s + 1) (t + 1) n (λ i l.
          let next : f (s + suc i) ≡ g (t + suc i) = h (suc i) (omega (arith, l)) in
          rw (plus_suc s i, plus_suc t i) next)))
  where
    plus_zero : (a : ℕ) → a + 0 ≡ a
    plus_zero a = omega arith

    plus_suc : (a i : ℕ) → a + 1 + i ≡ a + suc i
    plus_suc a i = omega arith
