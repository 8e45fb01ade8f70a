-- ===== src/Ui/Codepoint.antt =====
-- next_codepoint() of common/ui/canvas.c, which reads one codepoint of UTF-8, and the encoding that
-- it is to undo.
use limine_eucleia.Prelude.{
  ℕ, zero, suc, ◌+◌, ◌*◌, ◌/◌, ◌%◌, ◌≤◌, ◌<◌, ◌≡◌, ◌⊎◌, ap, refl, Bool, true, false, ◌&&◌, ◌||◌,
  Option, none, some, List, [], ◌∷◌, ◌++◌, arith, ltb, leb, if◌then◌else◌, length, Bool-cases,
  ltb→lt, inl, inr,
}

-- `n`, `value` and `min` after the first byte.
pub record Lead : Type 0 where
  pub n : ℕ
  pub value : ℕ
  pub min : ℕ

abbrev question_mark : ℕ
question_mark = 63

-- The masks of the low bits are remainders.
unfoldable pub lead : ℕ → Lead
lead value =
    if leb 0xc2 value && leb value 0xdf
    then record { n = 1; value = value % 0x20; min = 0x80 }
    else if leb 0xe0 value && leb value 0xef
    then record { n = 2; value = value % 0x10; min = 0x800 }
    else if leb 0xf0 value && leb value 0xf4
    then record { n = 3; value = value % 8; min = 0x1_0000 }
    else if leb 0x80 value || ltb value 32
    then record { n = 0; value = question_mark; min = 0 }
    else record { n = 0; value = value; min = 0 }

-- `(*p & 0xc0) == 0x80`, for a byte.
abbrev continues : ℕ → Bool
continues b = leb 0x80 b && ltb b 0xc0

-- The continuation bytes; `none` is the early return. The end of the list is the terminator.
unfoldable pub follow : (n value : ℕ) → List ℕ → Option ℕ × List ℕ
follow zero value p = (some value, p)
follow (suc n) value [] = (none, [])
follow (suc n) value (b ∷ p) =
    let rest = follow n (value * 64 + b % 64) p in if continues b then rest else (none, b ∷ p)

abbrev pub refused : (min value : ℕ) → Bool
refused min value = ltb value min || ltb 0x10_ffff value || (leb 0xd800 value && leb value 0xdfff)

unfoldable pub finish : (min : ℕ) → Option ℕ × List ℕ → ℕ × List ℕ
finish min (none, p) = (question_mark, p)
finish min (some value, p) = (if refused min value then question_mark else value, p)

-- The callers do not ask for a codepoint at the terminator.
unfoldable pub next_codepoint : List ℕ → ℕ × List ℕ
next_codepoint [] = (question_mark, [])
next_codepoint (b ∷ p) = finish ((lead b).min) (follow ((lead b).n) ((lead b).value) p)

-- UTF-8.
unfoldable pub encode : ℕ → List ℕ
encode c =
    if ltb c 0x80
    then c ∷ []
    else if ltb c 0x800
    then (0xc0 + c / 64) ∷ (0x80 + c % 64) ∷ []
    else if ltb c 0x1_0000
    then (0xe0 + c / 4096) ∷ (0x80 + c / 64 % 64) ∷ (0x80 + c % 64) ∷ []
    else (0xf0 + c / 262144) ∷ (0x80 + c / 4096 % 64) ∷ (0x80 + c / 64 % 64) ∷ (0x80 + c % 64) ∷ []

abbrev pub IsScalar : ℕ → Type 0
IsScalar c = (c < 0xd800) ⊎ ((0xdfff < c) × (c ≤ 0x10_ffff))

lead-two : (q : ℕ) → 2 ≤ q → q < 0x20 → lead (0xc0 + q) ≡ record { n = 1; value = q; min = 0x80 }
unfolding lead
lead-two q l u = ground arith

lead-three : (q : ℕ) → q < 0x10 → lead (0xe0 + q) ≡ record { n = 2; value = q; min = 0x800 }
unfolding lead
lead-three q u = ground arith

lead-four : (q : ℕ) → q < 5 → lead (0xf0 + q) ≡ record { n = 3; value = q; min = 0x1_0000 }
unfolding lead
lead-four q u = ground arith

follow-next :
    (n value r : ℕ) (p : List ℕ)
    → r < 64
    → follow (suc n) value ((0x80 + r) ∷ p) ≡ follow n (value * 64 + r) p
unfolding follow
follow-next n value r p u =
    let c : continues (0x80 + r) ≡ true = ground arith in
    let m : (0x80 + r) % 64 ≡ r = omega arith in rw c (rw m refl)

finish-value :
    (min c value : ℕ) (p : List ℕ)
    → value ≡ c
    → min ≤ c
    → IsScalar c
    → finish min (follow 0 value p) ≡ (c, p)
unfolding finish follow
finish-value min c value p q l s =
    let f : refused min value ≡ false = ground arith in rw f (ap (λ v. (v, p)) q)

encodes_two :
    (c : ℕ) (rest : List ℕ)
    → 0x80 ≤ c
    → c < 0x800
    → next_codepoint ((0xc0 + c / 64) ∷ (0x80 + c % 64) ∷ rest) ≡ (c, rest)
unfolding next_codepoint
encodes_two c rest l u = rw (lead-two (c / 64) (omega arith) (omega arith)) (
    rw (follow-next 0 (c / 64) (c % 64) rest (omega arith))
      (finish-value 0x80 c (c / 64 * 64 + c % 64) rest (omega arith) l (inl (omega arith))))

encodes_three :
    (c : ℕ) (rest : List ℕ)
    → 0x800 ≤ c
    → c < 0x1_0000
    → IsScalar c
    → next_codepoint ((0xe0 + c / 4096) ∷ (0x80 + c / 64 % 64) ∷ (0x80 + c % 64) ∷ rest) ≡ (c, rest)
unfolding next_codepoint
encodes_three c rest l u s = rw (lead-three (c / 4096) (omega arith)) (
    rw (follow-next 1 (c / 4096) (c / 64 % 64) _ (omega arith)) (
      rw (follow-next 0 (c / 4096 * 64 + c / 64 % 64) (c % 64) rest (omega arith)) (
        finish-value 0x800 c ((c / 4096 * 64 + c / 64 % 64) * 64 + c % 64) rest (omega arith) l s)))

encodes_four :
    (c : ℕ) (rest : List ℕ)
    → 0x1_0000 ≤ c
    → IsScalar c
    → next_codepoint (
        (0xf0 + c / 262144)
        ∷ (0x80 + c / 4096 % 64)
        ∷ (0x80 + c / 64 % 64)
        ∷ (0x80 + c % 64)
        ∷ rest)
      ≡ (c, rest)
unfolding next_codepoint
encodes_four c rest l s =
    let most : c ≤ 0x10_ffff = ground arith in
    rw (lead-four (c / 262144) (omega arith)) (
      rw (follow-next 2 (c / 262144) (c / 4096 % 64) _ (omega arith)) (
        rw (follow-next 1 (c / 262144 * 64 + c / 4096 % 64) (c / 64 % 64) _ (omega arith)) (
          rw
            (follow-next 0 ((c / 262144 * 64 + c / 4096 % 64) * 64 + c / 64 % 64) (c % 64) rest
              (omega arith))
            (finish-value 0x1_0000 c
              (((c / 262144 * 64 + c / 4096 % 64) * 64 + c / 64 % 64) * 64 + c % 64) rest
              (omega arith) l s))))

encodes_one : (c : ℕ) (rest : List ℕ) → 32 ≤ c → c < 0x80 → next_codepoint (c ∷ rest) ≡ (c, rest)
unfolding next_codepoint lead follow finish
encodes_one c rest l u = ground arith

-- next_codepoint() reads back every Unicode scalar value from 32 on from its UTF-8 encoding, and
-- leaves the bytes that follow.
pub next_codepoint-encode :
    (c : ℕ) (rest : List ℕ) → 32 ≤ c → IsScalar c → next_codepoint (encode c ++ rest) ≡ (c, rest)
unfolding encode
next_codepoint-encode c rest o s = elim (Bool-cases (ltb c 0x80)) [
  | inl h ↦ rw h (encodes_one c rest o (ltb→lt c 0x80 h))
  | inr h ↦ rw h (elim (Bool-cases (ltb c 0x800)) [
    | inl k ↦ rw k (encodes_two c rest (ground arith) (ltb→lt c 0x800 k))
    | inr k ↦ rw k (elim (Bool-cases (ltb c 0x1_0000)) [
      | inl g ↦ rw g (encodes_three c rest (ground arith) (ltb→lt c 0x1_0000 g) s)
      | inr g ↦ rw g (encodes_four c rest (ground arith) s)
    ])
  ])
]

follow-length : (n value : ℕ) (p : List ℕ) → length ((follow n value p).1) ≤ length p
unfolding follow
follow-length zero value p = omega arith
follow-length (suc n) value [] = omega arith
follow-length (suc n) value (b ∷ p) = elim (Bool-cases (continues b)) [
  | inl c ↦ rw c (omega (arith, follow-length n (value * 64 + b % 64) p))
  | inr c ↦ rw c (omega arith)
]

-- What the callers get of any bytes that do not begin with the terminator.
pub record Reads (b : ℕ) (p : List ℕ) (r : ℕ × List ℕ) : Type 0 where
  pub scalar : IsScalar r.0
  pub printable : 32 ≤ r.0
  pub onward : length r.1 ≤ length p

finish-sane : (min : ℕ) (r : Option ℕ × List ℕ) → IsScalar ((finish min r).0)
unfolding finish
finish-sane min (none, p) = inl (omega arith)
finish-sane min (some value, p) = elim (Bool-cases (refused min value)) [
  | inl c ↦ rw c (inl (omega arith))
  | inr c ↦ rw c (ground arith)
]

finish-rest : (min : ℕ) (r : Option ℕ × List ℕ) → (finish min r).1 ≡ r.1
unfolding finish
finish-rest min (none, p) = refl
finish-rest min (some value, p) = refl

lead-cases : (b : ℕ) → (((lead b).n ≡ 0) × (32 ≤ (lead b).value)) ⊎ (32 ≤ (lead b).min)
unfolding lead
lead-cases b = ground arith

finish-zero : (min value : ℕ) (p : List ℕ) → 32 ≤ value → 32 ≤ (finish min (follow 0 value p)).0
unfolding finish follow
finish-zero min value p l = ground arith

finish-min : (min : ℕ) (r : Option ℕ × List ℕ) → 32 ≤ min → 32 ≤ (finish min r).0
unfolding finish
finish-min min (none, p) l = omega arith
finish-min min (some value, p) l = ground arith

-- Of any bytes, next_codepoint() gives a Unicode scalar value from 32 on, so no surrogate and no
-- control character below 32, and leaves at most the bytes after the first one.
pub next_codepoint-Reads : (b : ℕ) (p : List ℕ) → Reads b p (next_codepoint (b ∷ p))
unfolding next_codepoint
next_codepoint-Reads b p = record {
  scalar = finish-sane ((lead b).min) (follow ((lead b).n) ((lead b).value) p);
  printable = elim (lead-cases b) [
    | inl c ↦ rw c.0 (finish-zero ((lead b).min) ((lead b).value) p c.1)
    | inr c ↦ finish-min ((lead b).min) (follow ((lead b).n) ((lead b).value) p) c
  ];
  onward =
      rw (finish-rest ((lead b).min) (follow ((lead b).n) ((lead b).value) p))
        (follow-length ((lead b).n) ((lead b).value) p);
}
