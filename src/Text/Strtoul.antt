-- ===== src/Text/Strtoul.antt =====
-- strtoul() of common/lib/libc.c, with an `unsigned long` of 64 bits.
use limine_eucleia.Prelude.{
  ℕ, ◌+◌, ◌-◌, ◌*◌, ◌/◌, ◌%◌, Bool, true, false, ◌&&◌, ◌||◌, Option, none, some, List, [], ◌∷◌, ltb,
  leb, ◌==◌, if◌then◌else◌,
}
use limine_eucleia.Word.{sub64}
use limine_eucleia.Text.Chars.{isspace}
use limine_eucleia.Text.Number.{uint64_max}

-- The values 0, 1 and -1 of `any`.
pub data Any : Type 0 where
  nothing : Any
  read : Any
  overflowed : Any

unfoldable pub letter_digit : ℕ → Option ℕ
letter_digit c =
    if leb b'0' c && leb c b'9'
    then some (c - b'0')
    else if leb b'A' c && leb c b'Z'
    then some (c - b'A' + 10)
    else if leb b'a' c && leb c b'z'
    then some (c - b'a' + 10)
    else none

abbrev pub has_overflowed : Any → Bool
has_overflowed nothing = false
has_overflowed read = false
has_overflowed overflowed = true

-- The test before a digit is taken in.
abbrev pub too_large : (base : ℕ) → Any → (acc d : ℕ) → Bool
too_large base any acc d =
    has_overflowed any
    || ltb (uint64_max / base) acc
    || (acc == uint64_max / base && ltb (uint64_max % base) d)

-- `any`, `acc` and the text at the break. Behind the test the sum does not wrap.
unfoldable pub strtoul_loop : (base : ℕ) → Any → (acc : ℕ) → List ℕ → Any × ℕ × List ℕ
strtoul_loop base any acc [] = (any, acc, [])
strtoul_loop base any acc (c ∷ s) = elim (letter_digit c) [
  | none ↦ (any, acc, c ∷ s)
  | some d ↦
      let rest =
        strtoul_loop base (if too_large base any acc d then overflowed else read)
          (if too_large base any acc d then acc else acc * base + d) s in
      if leb base d then (any, acc, c ∷ s) else rest
]

unfoldable pub skip_spaces : List ℕ → List ℕ
skip_spaces [] = []
skip_spaces (c ∷ s) = if isspace c then skip_spaces s else c ∷ s

-- `neg`, and the text behind the sign.
unfoldable pub sign : List ℕ → Bool × List ℕ
sign [] = (false, [])
sign (c ∷ s) = if c == b'-' then (true, s) else if c == b'+' then (false, s) else (false, c ∷ s)

abbrev pub is_hex : ℕ → Bool
is_hex c = (leb b'0' c && leb c b'9') || ((leb b'A' c && leb c b'F') || (leb b'a' c && leb c b'f'))

abbrev pub has_prefix : List ℕ → Bool
has_prefix (c ∷ x ∷ h ∷ s) = c == b'0' && ((x == b'x' || x == b'X') && is_hex h)
has_prefix s = false

abbrev pub behind_prefix : List ℕ → List ℕ
behind_prefix (c ∷ x ∷ s) = s
behind_prefix s = s

abbrev pub begins_with_0 : List ℕ → Bool
begins_with_0 [] = false
begins_with_0 (c ∷ s) = c == b'0'

-- The base, and the text behind a prefix `0x`.
unfoldable pub choose_base : (base : ℕ) → List ℕ → ℕ × List ℕ
choose_base base s =
    if (base == 0 || base == 16) && has_prefix s
    then (16, behind_prefix s)
    else if base == 0
    then (if begins_with_0 s then 8 else 10, s)
    else (base, s)

-- The result, and `*endptr`.
unfoldable pub strtoul_result : (nptr : List ℕ) → (neg : Bool) → Any × ℕ × List ℕ → ℕ × List ℕ
strtoul_result nptr neg (nothing, acc, s) = (acc, nptr)
strtoul_result nptr neg (read, acc, s) = (if neg then sub64 0 acc else acc, s)
strtoul_result nptr neg (overflowed, acc, s) = (uint64_max, s)

unfoldable pub convert : (nptr : List ℕ) (neg : Bool) → ℕ × List ℕ → ℕ × List ℕ
convert nptr neg (base, s) =
    if ltb base 2 || ltb 36 base
    then (0, nptr)
    else strtoul_result nptr neg (strtoul_loop base nothing 0 s)

abbrev pub behind_sign : (nptr : List ℕ) (base : ℕ) → Bool × List ℕ → ℕ × List ℕ
behind_sign nptr base (neg, s) = convert nptr neg (choose_base base s)

unfoldable pub strtoul : (nptr : List ℕ) (base : ℕ) → ℕ × List ℕ
strtoul nptr base = behind_sign nptr base (sign (skip_spaces nptr))
