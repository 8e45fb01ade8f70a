-- ===== src/Text/Numeral.antt =====
-- The numbers that strtoui() of common/lib/misc.s2.c reads.
use limine_eucleia.Prelude.{
  ℕ, ◌+◌, ◌-◌, ◌*◌, ◌≤◌, ◌<◌, ◌≡◌, ◌∙◌, refl, Bool, true, false, not, none, some, List, [], ◌∷◌,
  ◌++◌, map, arith, ltb, lt→ltb, ltb→lt, leb, if◌then◌else◌, mul_mono_right, Bool-cases, inl, inr,
}
use limine_eucleia.Word.{word}
use limine_eucleia.Text.Chars.{digit_to_int}
use limine_eucleia.Text.Number.{strtoui_loop, strtoui, uint64_max}

-- The character of a digit below 16.
unfoldable pub digit_char : ℕ → ℕ
digit_char d = if ltb d 10 then b'0' + d else b'a' + (d - 10)

pub digit_to_int-digit_char : (d : ℕ) → d < 16 → digit_to_int (digit_char d) ≡ some d
unfolding digit_to_int digit_char
digit_to_int-digit_char d h = ground arith

-- The number that digits spell behind a number `n`.
unfoldable pub value : (base n : ℕ) → List ℕ → ℕ
value base n [] = n
value base n (d ∷ ds) = value base (n * base + d) ds

abbrev pub Digits : ℕ → List ℕ → Type 0
Digits base [] = Unit
Digits base (d ∷ ds) = (d < base) × Digits base ds

-- Whether a text goes on with a digit.
abbrev pub goes_on : ℕ → List ℕ → Bool
goes_on base [] = false
goes_on base (c ∷ s) = elim (digit_to_int c) [ none ↦ false | some d ↦ not (leb base d) ]

pub le-value : (base n : ℕ) (ds : List ℕ) → Digits base ds → n ≤ value base n ds
unfolding value
le-value base n [] h = omega arith
le-value base n (d ∷ ds) h =
    let grows : n * 1 ≤ n * base = mul_mono_right n 1 base (omega (arith, h.0)) in
    omega (arith, grows, le-value base (n * base + d) ds h.1)

strtoui_loop-digit :
    (base n d : ℕ) (s : List ℕ)
    → d < base
    → base ≤ 16
    → n * base + d < word
    → strtoui_loop base n (digit_char d ∷ s) ≡ strtoui_loop base (n * base + d) s
unfolding strtoui_loop
strtoui_loop-digit base n d s h b w =
    let small : leb base d ≡ false = ground arith in
    let mul_fits : ltb (n * base) word ≡ true = lt→ltb _ _ (omega arith) in
    let add_fits : ltb (n * base + d) word ≡ true = lt→ltb _ _ w in
    rw (digit_to_int-digit_char d (omega arith), strtoui_loop)
      (rw small (rw mul_fits (rw add_fits refl)))

strtoui_loop-stop :
    (base n : ℕ) (s : List ℕ) → goes_on base s ≡ false → strtoui_loop base n s ≡ (n, s)
unfolding strtoui_loop
strtoui_loop-stop base n [] h = refl
strtoui_loop-stop base n (c ∷ s) h = ground (arith, h)

strtoui_loop-spelled :
    (base n : ℕ) (ds rest : List ℕ)
    → base ≤ 16
    → Digits base ds
    → value base n ds < word
    → goes_on base rest ≡ false
    → strtoui_loop base n (map digit_char ds ++ rest) ≡ (value base n ds, rest)
unfolding value
strtoui_loop-spelled base n [] rest b h w stop = strtoui_loop-stop base n rest stop
strtoui_loop-spelled base n (d ∷ ds) rest b h w stop =
    strtoui_loop-digit base n d (map digit_char ds ++ rest) h.0 b
      (omega (arith, w, le-value base (n * base + d) ds h.1))
    ∙ strtoui_loop-spelled base (n * base + d) ds rest b h.1 w stop

-- The digits of a base of at most 16, with no further digit behind them, are read as the number that
-- they spell, if that is below 2^64, and the end is what follows.
pub strtoui-spelled :
    (base : ℕ) (ds rest : List ℕ)
    → base ≤ 16
    → Digits base ds
    → value base 0 ds < word
    → goes_on base rest ≡ false
    → strtoui (map digit_char ds ++ rest) base ≡ (value base 0 ds, rest)
unfolding strtoui
strtoui-spelled base ds rest b h w stop = strtoui_loop-spelled base 0 ds rest b h w stop

strtoui_loop-full :
    (base n d : ℕ) (s : List ℕ)
    → d < base
    → base ≤ 16
    → word ≤ n * base + d
    → (strtoui_loop base n (digit_char d ∷ s)).0 ≡ uint64_max
unfolding strtoui_loop
strtoui_loop-full base n d s h b w =
    let small : leb base d ≡ false = ground arith in
    rw (digit_to_int-digit_char d (omega arith), strtoui_loop)
      (rw small (elim (Bool-cases (ltb (n * base) word)) [
        | inr o ↦ rw o refl
        | inl o ↦ let full : ltb (n * base + d) word ≡ false = ground arith in rw o (rw full refl)
      ]))

strtoui_loop-saturates :
    (base n : ℕ) (ds rest : List ℕ)
    → base ≤ 16
    → Digits base ds
    → n < word
    → goes_on base rest ≡ false
    → (strtoui_loop base n (map digit_char ds ++ rest)).0
      ≡ (if ltb (value base n ds) word then value base n ds else uint64_max)
unfolding value
strtoui_loop-saturates base n [] rest b h w stop =
    let fits : ltb n word ≡ true = lt→ltb n word w in
    rw (strtoui_loop-stop base n rest stop) (rw fits refl)
strtoui_loop-saturates base n (d ∷ ds) rest b h w stop =
    elim (Bool-cases (ltb (n * base + d) word)) [
      | inl o ↦
          let step = strtoui_loop-digit base n d (map digit_char ds ++ rest) h.0 b (ltb→lt _ _ o) in
          rw step (strtoui_loop-saturates base (n * base + d) ds rest b h.1 (ltb→lt _ _ o) stop)
      | inr o ↦
          let wide : ltb (value base (n * base + d) ds) word ≡ false =
            ground (arith, le-value base (n * base + d) ds h.1, o) in
          rw wide (strtoui_loop-full base n d (map digit_char ds ++ rest) h.0 b (ground arith))
    ]

-- For a base of at most 16, on digits of the base behind which no further digit follows,
-- strtoui() returns the number that they spell, or 2^64 - 1 where that is not below 2^64.
pub strtoui-saturates :
    (base : ℕ) (ds rest : List ℕ)
    → base ≤ 16
    → Digits base ds
    → goes_on base rest ≡ false
    → (strtoui (map digit_char ds ++ rest) base).0
      ≡ (if ltb (value base 0 ds) word then value base 0 ds else uint64_max)
unfolding strtoui
strtoui-saturates base ds rest b h stop =
    strtoui_loop-saturates base 0 ds rest b h (omega arith) stop
