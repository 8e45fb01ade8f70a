-- ===== src/Text/Saturated.antt =====
-- The numbers that strtoul() of common/lib/libc.c reads, and strtoui() beside it.
use limine_eucleia.Prelude.{
  ℕ, ◌+◌, ◌*◌, ◌/◌, ◌%◌, ◌≤◌, ◌<◌, ◌≡◌, ◌≢◌, ◌∙◌, ap, refl, Bool, true, false, ◌&&◌, ◌||◌, none,
  some, List, [], ◌∷◌, ◌++◌, map, arith, ltb, lt→ltb, ltb→lt, leb, ◌==◌, ==_iff, if◌then◌else◌,
  mul_mono_left, Bool-cases, inl, inr, sym,
}
use native.Mathlib.Nat.{div-add-mod', mod-lt}
use limine_eucleia.Word.{word}
use limine_eucleia.Text.Chars.{isspace, digit_to_int}
use limine_eucleia.Text.Number.{uint64_max, strtoui}
use limine_eucleia.Text.Numeral.{digit_char, value, Digits, le-value, goes_on, strtoui-saturates}
use limine_eucleia.Text.Strtoul.{
  Any, nothing, read, overflowed, letter_digit, too_large, strtoul_loop, skip_spaces, sign,
  choose_base, convert, strtoul_result, behind_sign, strtoul,
}

letter_digit-digit_char : (d : ℕ) → d < 36 → letter_digit (digit_char d) ≡ some d
unfolding letter_digit digit_char
letter_digit-digit_char d h = ground arith

abbrev pub digit_follows : ℕ → List ℕ → Bool
digit_follows base [] = false
digit_follows base (c ∷ s) = elim (letter_digit c) [ none ↦ false | some d ↦ ltb d base ]

add_one-mul : (q b : ℕ) → (q + 1) * b ≡ q * b + b
add_one-mul q b = grind arith

-- What stands on the next multiple of the base is larger.
next_multiple : (q acc b : ℕ) → q < acc → q * b + b ≤ acc * b
next_multiple q acc b h = omega (arith, mul_mono_left (q + 1) acc b (omega arith), add_one-mul q b)

-- The test is whether the sum exceeds 64 bits.
abbrev exceeds : (base acc d : ℕ) → Bool
exceeds base acc d =
    ltb (uint64_max / base) acc || (acc == uint64_max / base && ltb (uint64_max % base) d)

exceeds-ltb :
    (base acc d : ℕ) → 0 < base → d < base → exceeds base acc d ≡ ltb uint64_max (acc * base + d)
exceeds-ltb base acc d z h =
    let parts = div-add-mod' uint64_max base in
    let small = mod-lt uint64_max z in
    elim (Bool-cases (ltb (uint64_max / base) acc)) [
      | inl c ↦
          ground (arith, c, next_multiple (uint64_max / base) acc base (ltb→lt _ _ c), parts, small)
      | inr c ↦ elim (Bool-cases (acc == uint64_max / base)) [
        | inl e ↦ ground (
          arith,
          c,
          e,
          parts,
          small,
          ap (λ (k : ℕ). k * base) ((==_iff acc (uint64_max / base)).0 e),
        )
        | inr e ↦
            ground
              (arith, c, e, parts, small, next_multiple acc (uint64_max / base) base (ground arith))
      ]
    ]

strtoul_loop-stop :
    (base : ℕ) (any : Any) (acc : ℕ) (rest : List ℕ)
    → digit_follows base rest ≡ false
    → strtoul_loop base any acc rest ≡ (any, acc, rest)
unfolding strtoul_loop
strtoul_loop-stop base any acc [] h = refl
strtoul_loop-stop base any acc (c ∷ s) h = ground (arith, h)

strtoul_loop-digit :
    (base : ℕ) (any : Any) (acc d : ℕ) (s : List ℕ)
    → d < base
    → base ≤ 36
    → strtoul_loop base any acc (digit_char d ∷ s)
      ≡ strtoul_loop base
          (if too_large base any acc d then overflowed else read)
          (if too_large base any acc d then acc else acc * base + d)
          s
unfolding strtoul_loop
strtoul_loop-digit base any acc d s h b =
    let small : leb base d ≡ false = ground arith in
    rw (letter_digit-digit_char d (omega arith), strtoul_loop) (rw small refl)

strtoul_loop-overflowed :
    (base acc : ℕ) (ds rest : List ℕ)
    → base ≤ 36
    → Digits base ds
    → digit_follows base rest ≡ false
    → strtoul_loop base overflowed acc (map digit_char ds ++ rest) ≡ (overflowed, acc, rest)
strtoul_loop-overflowed base acc [] rest b h stop = strtoul_loop-stop base overflowed acc rest stop
strtoul_loop-overflowed base acc (d ∷ ds) rest b h stop =
    strtoul_loop-digit base overflowed acc d (map digit_char ds ++ rest) h.0 b
    ∙ strtoul_loop-overflowed base acc ds rest b h.1 stop

-- What is returned without a sign: the number, or the largest one.
abbrev pub saturated : ℕ → ℕ
saturated n = if ltb n word then n else uint64_max

strtoul_loop-read :
    (nptr : List ℕ) (base acc : ℕ) (ds rest : List ℕ)
    → base ≤ 36
    → Digits base ds
    → acc < word
    → digit_follows base rest ≡ false
    → strtoul_result nptr false (strtoul_loop base read acc (map digit_char ds ++ rest))
      ≡ (saturated (value base acc ds), rest)
unfolding strtoul_result value
strtoul_loop-read nptr base acc [] rest b h w stop =
    let small : ltb acc word ≡ true = lt→ltb acc word w in
    rw (strtoul_loop-stop base read acc rest stop) (rw small refl)
strtoul_loop-read nptr base acc (d ∷ ds) rest b h w stop =
    let step = strtoul_loop-digit base read acc d (map digit_char ds ++ rest) h.0 b in
    let test = exceeds-ltb base acc d (omega (arith, h.0)) h.0 in
    elim (Bool-cases (ltb uint64_max (acc * base + d))) [
      | inr c ↦ rw step (
          rw test (
            rw c (
              strtoul_loop-read nptr base (acc * base + d) ds rest b h.1 (ground (arith, c)) stop)))
      | inl c ↦
          let over : ltb (value base (acc * base + d) ds) word ≡ false =
            ground (arith, le-value base (acc * base + d) ds h.1, c) in
          rw step (
            rw test
              (rw c (rw over (rw (strtoul_loop-overflowed base acc ds rest b h.1 stop) refl))))
    ]

skip_spaces-digit :
    (d : ℕ) (s : List ℕ) → d < 36 → skip_spaces (digit_char d ∷ s) ≡ digit_char d ∷ s
unfolding skip_spaces isspace digit_char
skip_spaces-digit d s h = ground arith

sign-digit : (d : ℕ) (s : List ℕ) → d < 36 → sign (digit_char d ∷ s) ≡ (false, digit_char d ∷ s)
unfolding sign digit_char
sign-digit d s h = ground arith

choose_base-given : (base : ℕ) (s : List ℕ) → base ≢ 0 → base ≢ 16 → choose_base base s ≡ (base, s)
unfolding choose_base
choose_base-given base s z x =
    let a : (base == 0) ≡ false = ground arith in
    let b : (base == 16) ≡ false = ground arith in rw a (rw b refl)

convert-given :
    (nptr s : List ℕ) (neg : Bool) (base : ℕ)
    → 2 ≤ base
    → base ≤ 36
    → convert nptr neg (base, s) ≡ strtoul_result nptr neg (strtoul_loop base nothing 0 s)
unfolding convert
convert-given nptr s neg base l u =
    let a : ltb base 2 ≡ false = ground arith in
    let b : ltb 36 base ≡ false = ground arith in rw a (rw b refl)

-- For a base from 2 to 36 other than 16, strtoul() reads one or more digits of the base (letters
-- in lower case), behind which no further digit follows, as the number that they spell, or as
-- 2^64 - 1 where that is not below 2^64, and the end is what follows the digits.
pub strtoul-spelled :
    (base d : ℕ) (ds rest : List ℕ)
    → 2 ≤ base
    → base ≤ 36
    → base ≢ 16
    → Digits base (d ∷ ds)
    → digit_follows base rest ≡ false
    → strtoul (map digit_char (d ∷ ds) ++ rest) base ≡ (saturated (value base 0 (d ∷ ds)), rest)
unfolding strtoul value
strtoul-spelled base d ds rest l u x h stop =
    let s = map digit_char (d ∷ ds) ++ rest in
    let tail = map digit_char ds ++ rest in
    let least : too_large base nothing 0 d ≡ false =
      exceeds-ltb base 0 d (omega arith) h.0 ∙ ground (arith, h.0) in
    ap (λ t. behind_sign s base (sign t)) (skip_spaces-digit d tail (omega (arith, h.0)))
    ∙ ap (behind_sign s base) (sign-digit d tail (omega (arith, h.0)))
    ∙ ap (convert s false) (choose_base-given base s (omega arith) x)
    ∙ convert-given s s false base l u
    ∙ ap (strtoul_result s false) (strtoul_loop-digit base nothing 0 d tail h.0 u ∙ rw least refl)
    ∙ strtoul_loop-read s base (0 * base + d) ds rest u h.1 (omega (arith, h.0)) stop

goes_on-digit_follows :
    (base : ℕ) (s : List ℕ) → base ≤ 16 → digit_follows base s ≡ false → goes_on base s ≡ false
unfolding letter_digit digit_to_int
goes_on-digit_follows base [] b h = refl
goes_on-digit_follows base (c ∷ s) b h = ground (arith, h)

-- For a base from 2 to 15, on one or more digits of the base behind which no further digit
-- follows, strtoul() and strtoui() return the same number, overflow included.
pub strtoul-strtoui :
    (base d : ℕ) (ds rest : List ℕ)
    → 2 ≤ base
    → base < 16
    → Digits base (d ∷ ds)
    → digit_follows base rest ≡ false
    → (strtoul (map digit_char (d ∷ ds) ++ rest) base).0
      ≡ (strtoui (map digit_char (d ∷ ds) ++ rest) base).0
strtoul-strtoui base d ds rest l u h stop =
    ap (λ (r : ℕ × List ℕ). r.0)
      (strtoul-spelled base d ds rest l (omega arith) (omega arith) h stop)
    ∙ sym (
        strtoui-saturates base (d ∷ ds) rest (omega arith) h
          (goes_on-digit_follows base rest (omega arith) stop))
