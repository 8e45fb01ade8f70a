-- ===== src/Ui/Bounded.antt =====
-- What the values of common/ui/config.c are, whatever the text.
use limine_eucleia.Prelude.{
  ℕ, ◌+◌, ◌-◌, ◌*◌, ◌/◌, ◌≤◌, ◌<◌, inl, inr, Bool, true, false, not, ◌&&◌, Option, none, some, List,
  [], ◌∷◌, arith, ltb, ◌==◌, Bool-cases,
}
use limine_eucleia.Ui.Values.{
  is_digit, whole, fraction, thousandths, magnitude, Number, number, signed,
}

abbrev AtMost : ℕ → Option (ℕ × List ℕ) → Type 0
AtMost k none = Unit
AtMost k (some r) = r.0 ≤ k

whole-AtMost : (n : ℕ) (p : List ℕ) → n ≤ 32768 → AtMost 32768 (whole n p)
unfolding whole
whole-AtMost n [] h = h
whole-AtMost n (c ∷ p) h = elim (Bool-cases (is_digit c)) [
  | inr d ↦ rw d h
  | inl d ↦ rw d (elim (Bool-cases (ltb 32768 (n * 10 + c - 48))) [
    | inl o ↦ rw o tt
    | inr o ↦ rw o (whole-AtMost (n * 10 + c - 48) p (ground arith))
  ])
]

mul_mono : (p q b : ℕ) → p ≤ q → p * b ≤ q * b
mul_mono p q b h = grind arith

fraction-le : (place n : ℕ) (p : List ℕ) → (fraction place n p).0 ≤ n + (10 * place - 1)
unfolding fraction
fraction-le place n [] = omega arith
fraction-le place n (c ∷ p) = elim (Bool-cases (is_digit c && not (place == 0))) [
  | inr d ↦ rw d (omega arith)
  | inl d ↦ rw d (
      let small : c - 48 ≤ 9 = ground arith in
      let step = mul_mono (c - 48) 9 place small in
      let some_place : 0 < place = ground arith in
      omega (arith, fraction-le (place / 10) (n + (c - 48) * place) p, step, some_place))
]

thousandths-AtMost : (n : ℕ) (p : List ℕ) → AtMost (n + 999) (thousandths n p)
unfolding thousandths
thousandths-AtMost n [] = omega arith
thousandths-AtMost n (c ∷ []) = elim (Bool-cases (c == 46)) [
  | inr q ↦ rw q (omega arith)
  | inl q ↦ rw q tt
]
thousandths-AtMost n (c ∷ d ∷ p) = elim (Bool-cases (c == 46)) [
  | inr q ↦ rw q (omega arith)
  | inl q ↦ rw q (elim (Bool-cases (is_digit d)) [
    | inr r ↦ rw r tt
    | inl r ↦ rw r (omega (arith, fraction-le 100 n (d ∷ p)))
  ])
]

magnitude-AtMost : (p : List ℕ) → AtMost 32768999 (magnitude p)
unfolding magnitude
magnitude-AtMost [] = tt
magnitude-AtMost (c ∷ p) = elim (Bool-cases (is_digit c)) [
  | inr d ↦ rw d tt
  | inl d ↦ rw d (scaled_up (whole 0 (c ∷ p)) (whole-AtMost 0 (c ∷ p) (omega arith)))
]
  where
    relax : (k : ℕ) (o : Option (ℕ × List ℕ)) → k ≤ 32768999 → AtMost k o → AtMost 32768999 o
    relax k none l h = tt
    relax k (some r) l h = omega arith

    scaled_up :
        (o : Option (ℕ × List ℕ))
        → AtMost 32768 o
        → AtMost 32768999 (elim o [ none ↦ none | some r ↦ thousandths (r.0 * 1000) r.1 ])
    scaled_up none h = tt
    scaled_up (some r) h =
        relax (r.0 * 1000 + 999) (thousandths (r.0 * 1000) r.1) (omega arith)
          (thousandths-AtMost (r.0 * 1000) r.1)

-- A number in thousandths, between -32768.999 and 32768.999.
abbrev pub InRange : Option Number → Type 0
InRange none = Unit
InRange (some r) = r.value ≤ 32768999

signed-InRange : (s : Bool) (o : Option (ℕ × List ℕ)) → AtMost 32768999 o → InRange (signed s o)
signed-InRange s none h = tt
signed-InRange s (some r) h = h

-- A number that number() accepts is at most 32768.999 in magnitude, in thousandths, whatever the
-- text.
pub number-InRange : (p : List ℕ) → InRange (number p)
unfolding number
number-InRange [] = signed-InRange false (magnitude []) (magnitude-AtMost [])
number-InRange (c ∷ p) = elim (Bool-cases (c == 45)) [
  | inl q ↦ rw q (signed-InRange true (magnitude p) (magnitude-AtMost p))
  | inr q ↦ rw q (signed-InRange false (magnitude (c ∷ p)) (magnitude-AtMost (c ∷ p)))
]
