-- ===== src/Ui/Values.antt =====
-- The values of a theme's properties: number(), the digits of colour() and ui_config_path() of
-- common/ui/config.c, over the characters of a string before its terminator.
use limine_eucleia.Prelude.{
  ℕ, suc, ◌+◌, ◌-◌, ◌*◌, ◌/◌, Bool, true, false, not, ◌&&◌, ◌||◌, Option, none, some, List, [], ◌∷◌,
  ◌++◌, ltb, leb, ◌==◌, if◌then◌else◌, length, take,
}

-- `*p >= '0' && *p <= '9'`.
abbrev pub is_digit : ℕ → Bool
is_digit c = leb 48 c && leb c 57

-- The loop over the digits before the point; `none` is a value over 32768.
unfoldable pub whole : (n : ℕ) → List ℕ → Option (ℕ × List ℕ)
whole n [] = some (n, [])
whole n (c ∷ p) =
    let next = n * 10 + c - 48 in
    let rest = whole next p in
    if not (is_digit c) then some (n, c ∷ p) else if ltb 32768 next then none else rest

-- The loop over the digits behind the point.
unfoldable pub fraction : (place n : ℕ) → List ℕ → ℕ × List ℕ
fraction place n [] = (n, [])
fraction place n (c ∷ p) =
    let rest = fraction (place / 10) (n + (c - 48) * place) p in
    if is_digit c && not (place == 0) then rest else (n, c ∷ p)

-- What follows the whole part, `n` thousandths.
unfoldable pub thousandths : (n : ℕ) → List ℕ → Option (ℕ × List ℕ)
thousandths n [] = some (n, [])
thousandths n (c ∷ []) = if c == 46 then none else some (n, c ∷ [])
thousandths n (c ∷ d ∷ p) =
    if c == 46
    then (if is_digit d then some (fraction 100 n (d ∷ p)) else none)
    else some (n, c ∷ d ∷ p)

unfoldable pub magnitude : List ℕ → Option (ℕ × List ℕ)
magnitude [] = none
magnitude (c ∷ p) =
    if not (is_digit c)
    then none
    else elim (whole 0 (c ∷ p)) [ none ↦ none | some r ↦ thousandths (r.0 * 1000) r.1 ]

-- `*value`, as a sign and a magnitude, and `*text` afterwards.
pub record Number : Type 0 where
  pub negative : Bool
  pub value : ℕ
  pub text : List ℕ

abbrev pub signed : Bool → Option (ℕ × List ℕ) → Option Number
signed negative none = none
signed negative (some r) = some (record { negative = negative; value = r.0; text = r.1 })

unfoldable pub number : List ℕ → Option Number
number [] = signed false (magnitude [])
number (c ∷ p) = if c == 45 then signed true (magnitude p) else signed false (magnitude (c ∷ p))

unfoldable pub hex_digit : ℕ → Option ℕ
hex_digit c =
    if is_digit c
    then some (c - 48)
    else if leb 97 c && leb c 102
    then some (c - 87)
    else if leb 65 c && leb c 70
    then some (c - 55)
    else none

-- `n = (n << 4) | c`, whose bits do not meet.
unfoldable pub hex_digits : (n : ℕ) → List ℕ → Option ℕ
hex_digits n [] = some n
hex_digits n (c ∷ v) = elim (hex_digit c) [ none ↦ none | some d ↦ hex_digits (n * 16 + d) v ]

-- `none` is an error, which leaves the colour as it was.
unfoldable pub parse_colour : List ℕ → Option ℕ
parse_colour [] = none
parse_colour (c ∷ v) = if not (suc (length v) == 7) || not (c == 35) then none else hex_digits 0 v

-- `slash - config + 1` for the last slash, or 0.
unfoldable pub prefix_length : List ℕ → ℕ
prefix_length [] = 0
prefix_length (c ∷ config) =
    let rest = prefix_length config in
    if not (rest == 0) then suc rest else if c == 47 then 1 else 0

-- `out` before its terminator, where `config` is not NULL; `none` is the result `false`.
unfoldable pub config_path : (capacity : ℕ) (config asset : List ℕ) → Option (List ℕ)
config_path capacity config [] = none
config_path capacity config (c ∷ asset) =
    let prefix = if c == 47 then 0 else prefix_length config in
    if leb capacity (prefix + suc (length asset))
    then none
    else some (take prefix config ++ (c ∷ asset))
