-- ===== src/Ui/Colours.antt =====
-- The colours of common/ui/config.c, read back from their spelling.
use limine_eucleia.Prelude.{
  ℕ, ◌+◌, ◌*◌, ◌/◌, ◌%◌, ◌^◌, ◌<◌, ◌≡◌, refl, ap, ◌∙◌, some, List, [], ◌∷◌, arith, ltb,
  if◌then◌else◌,
}
use limine_eucleia.Ui.Values.{hex_digit, hex_digits, parse_colour}

-- A digit below 16 in lower case.
unfoldable pub hex_char : ℕ → ℕ
hex_char d = if ltb d 10 then 48 + d else 87 + d

hex_digit-hex_char : (d : ℕ) → d < 16 → hex_digit (hex_char d) ≡ some d
unfolding hex_digit hex_char
hex_digit-hex_char d h = ground arith

hex_digits-next :
    (n d : ℕ) (v : List ℕ) → d < 16 → hex_digits n (hex_char d ∷ v) ≡ hex_digits (n * 16 + d) v
unfolding hex_digits
hex_digits-next n d v h = rw (hex_digit-hex_char d h, hex_digits) refl

hex_digits-nil : (n : ℕ) → hex_digits n [] ≡ some n
unfolding hex_digits
hex_digits-nil n = refl

-- The digits of a colour behind the `#`.
abbrev pub spell : ℕ → List ℕ
spell n =
    hex_char (n / 0x10_0000)
    ∷ hex_char (n / 0x1_0000 % 16)
    ∷ hex_char (n / 0x1000 % 16)
    ∷ hex_char (n / 0x100 % 16)
    ∷ hex_char (n / 16 % 16)
    ∷ hex_char (n % 16)
    ∷ []

-- The colour parser reads back every 24-bit colour from `#` and its six hexadecimal digits in
-- lower case.
pub parse_colour-spell : (n : ℕ) → n < 2 ^ 24 → parse_colour (35 ∷ spell n) ≡ some n
unfolding parse_colour
parse_colour-spell n h =
    hex_digits-next _ _ _ (omega arith)
    ∙ hex_digits-next _ _ _ (omega arith)
    ∙ hex_digits-next _ _ _ (omega arith)
    ∙ hex_digits-next _ _ _ (omega arith)
    ∙ hex_digits-next _ _ _ (omega arith)
    ∙ hex_digits-next _ _ _ (omega arith)
    ∙ hex_digits-nil _
    ∙ ap some (omega arith)
