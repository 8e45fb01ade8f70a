-- ===== src/Text/GuidText.antt =====
-- A GUID of common/lib/guid.c is read back from its text.
use limine_eucleia.Prelude.{
  ℕ, suc, ◌+◌, ◌*◌, ◌/◌, ◌%◌, ◌<◌, ◌≡◌, ◌∙◌, refl, Bool, true, false, not, ◌&&◌, some, List, [],
  ◌∷◌, ◌==◌, arith,
}
use limine_eucleia.Text.Numeral.{digit_char, digit_to_int-digit_char}
use limine_eucleia.Text.Guid.{
  is_dash, is_hex_digit, valid_from, is_valid_guid, digit_value, pair_byte, string_to_guid_mixed,
  uint_to_hex, guid_to_string,
}

-- The two digits of a byte, before other text.
abbrev hex : ℕ → List ℕ → List ℕ
hex b s = digit_char (b / 16) ∷ digit_char (b % 16) ∷ s

digit_value-digit_char : (d : ℕ) → d < 16 → digit_value (digit_char d) ≡ d
unfolding digit_value
digit_value-digit_char d h = rw (digit_to_int-digit_char d h, digit_value) refl

is_hex_digit-digit_char : (d : ℕ) → d < 16 → is_hex_digit (digit_char d) ≡ true
unfolding is_hex_digit
is_hex_digit-digit_char d h = rw (digit_to_int-digit_char d h, is_hex_digit) refl

pair_byte-hex : (b : ℕ) → b < 256 → pair_byte (digit_char (b / 16)) (digit_char (b % 16)) ≡ b
unfolding pair_byte
pair_byte-hex b h = omega (
  arith,
  digit_value-digit_char (b / 16) (omega arith),
  digit_value-digit_char (b % 16) (omega arith),
)

uint_to_hex-two : (b : ℕ) → b < 256 → uint_to_hex b 2 ≡ hex b []
unfolding uint_to_hex
uint_to_hex-two b h =
    let q : b / 16 % 16 ≡ b / 16 = omega arith in
    let r : b / 1 % 16 ≡ b % 16 = omega arith in rw q (rw r refl)

uint_to_hex-four : (a b : ℕ) → a < 256 → b < 256 → uint_to_hex (a + b * 0x100) 4 ≡ hex b (hex a [])
unfolding uint_to_hex
uint_to_hex-four a b x y =
    let n = a + b * 0x100 in
    let p : n / 4096 % 16 ≡ b / 16 = omega arith in
    let q : n / 256 % 16 ≡ b % 16 = omega arith in
    let r : n / 16 % 16 ≡ a / 16 = omega arith in
    let s : n / 1 % 16 ≡ a % 16 = omega arith in rw p (rw q (rw r (rw s refl)))

uint_to_hex-eight :
    (a b c d : ℕ)
    → a < 256
    → b < 256
    → c < 256
    → d < 256
    → uint_to_hex (a + b * 0x100 + c * 0x1_0000 + d * 0x100_0000) 8
      ≡ hex d (hex c (hex b (hex a [])))
unfolding uint_to_hex
uint_to_hex-eight a b c d x y z w =
    let n = a + b * 0x100 + c * 0x1_0000 + d * 0x100_0000 in
    let e0 : n / 268435456 % 16 ≡ d / 16 = omega arith in
    let e1 : n / 16777216 % 16 ≡ d % 16 = omega arith in
    let e2 : n / 1048576 % 16 ≡ c / 16 = omega arith in
    let e3 : n / 65536 % 16 ≡ c % 16 = omega arith in
    let e4 : n / 4096 % 16 ≡ b / 16 = omega arith in
    let e5 : n / 256 % 16 ≡ b % 16 = omega arith in
    let e6 : n / 16 % 16 ≡ a / 16 = omega arith in
    let e7 : n / 1 % 16 ≡ a % 16 = omega arith in
    rw e0 (rw e1 (rw e2 (rw e3 (rw e4 (rw e5 (rw e6 (rw e7 refl)))))))

abbrev plain : ℕ → Bool
plain i = not (i == 36) && not (is_dash i)

plain-parts : (i : ℕ) → plain i ≡ true → ((i == 36) ≡ false) × (is_dash i ≡ false)
plain-parts i p = (ground (arith, p), ground (arith, p))

valid-digit :
    (i d : ℕ) (s : List ℕ)
    → plain i ≡ true
    → d < 16
    → valid_from i (digit_char d ∷ s) ≡ valid_from (suc i) s
unfolding valid_from
valid-digit i d s p h =
    let (a, b) = plain-parts i p in
    rw (a, valid_from) (rw b (rw (is_hex_digit-digit_char d h) refl))

valid-hex :
    (i b : ℕ) (s : List ℕ)
    → plain i ≡ true
    → plain (suc i) ≡ true
    → b < 256
    → valid_from i (hex b s) ≡ valid_from (suc (suc i)) s
valid-hex i b s p q h =
    valid-digit i (b / 16) (digit_char (b % 16) ∷ s) p (omega arith)
    ∙ valid-digit (suc i) (b % 16) s q (omega arith)

valid-dash :
    (i : ℕ) (s : List ℕ)
    → (i == 36) ≡ false
    → is_dash i ≡ true
    → valid_from i (b'-' ∷ s) ≡ valid_from (suc i) s
unfolding valid_from
valid-dash i s p q = rw (p, valid_from) (rw q refl)

valid-end : valid_from 36 [] ≡ true
unfolding valid_from
valid-end = refl

module _ (b0 b1 b2 b3 b4 b5 b6 b7 b8 b9 b10 b11 b12 b13 b14 b15 : ℕ) (h0 : b0 < 256) (h1 : b1 < 256)
    (h2 : b2 < 256) (h3 : b3 < 256) (h4 : b4 < 256) (h5 : b5 < 256) (h6 : b6 < 256) (h7 : b7 < 256)
    (h8 : b8 < 256) (h9 : b9 < 256) (h10 : b10 < 256) (h11 : b11 < 256) (h12 : b12 < 256)
    (h13 : b13 < 256) (h14 : b14 < 256) (h15 : b15 < 256) where
  abbrev guid : List ℕ
  guid = b0 ∷ b1 ∷ b2 ∷ b3 ∷ b4 ∷ b5 ∷ b6 ∷ b7 ∷ b8 ∷ b9 ∷ b10 ∷ b11 ∷ b12 ∷ b13 ∷ b14 ∷ b15 ∷ []

  abbrev t19 : List ℕ
  t19 = hex b15 []

  abbrev t18 : List ℕ
  t18 = hex b14 t19

  abbrev t17 : List ℕ
  t17 = hex b13 t18

  abbrev t16 : List ℕ
  t16 = hex b12 t17

  abbrev t15 : List ℕ
  t15 = hex b11 t16

  abbrev t14 : List ℕ
  t14 = hex b10 t15

  abbrev t13 : List ℕ
  t13 = b'-' ∷ t14

  abbrev t12 : List ℕ
  t12 = hex b9 t13

  abbrev t11 : List ℕ
  t11 = hex b8 t12

  abbrev t10 : List ℕ
  t10 = b'-' ∷ t11

  abbrev t9 : List ℕ
  t9 = hex b6 t10

  abbrev t8 : List ℕ
  t8 = hex b7 t9

  abbrev t7 : List ℕ
  t7 = b'-' ∷ t8

  abbrev t6 : List ℕ
  t6 = hex b4 t7

  abbrev t5 : List ℕ
  t5 = hex b5 t6

  abbrev t4 : List ℕ
  t4 = b'-' ∷ t5

  abbrev t3 : List ℕ
  t3 = hex b0 t4

  abbrev t2 : List ℕ
  t2 = hex b1 t3

  abbrev t1 : List ℕ
  t1 = hex b2 t2

  abbrev text : List ℕ
  text = hex b3 t1

  guid_to_string-text : guid_to_string guid ≡ text
  unfolding guid_to_string
  guid_to_string-text = rw (uint_to_hex-eight b0 b1 b2 b3 h0 h1 h2 h3) (
      rw (uint_to_hex-four b4 b5 h4 h5) (
        rw (uint_to_hex-four b6 b7 h6 h7) (
          rw (uint_to_hex-two b8 h8) (
            rw (uint_to_hex-two b9 h9) (
              rw (uint_to_hex-two b10 h10) (
                rw (uint_to_hex-two b11 h11) (
                  rw (uint_to_hex-two b12 h12) (
                    rw (uint_to_hex-two b13 h13)
                      (rw (uint_to_hex-two b14 h14) (rw (uint_to_hex-two b15 h15) refl))))))))))

  text-valid : is_valid_guid text ≡ true
  unfolding is_valid_guid
  text-valid =
      valid-hex 0 b3 t1 refl refl h3
      ∙ valid-hex 2 b2 t2 refl refl h2
      ∙ valid-hex 4 b1 t3 refl refl h1
      ∙ valid-hex 6 b0 t4 refl refl h0
      ∙ valid-dash 8 t5 refl refl
      ∙ valid-hex 9 b5 t6 refl refl h5
      ∙ valid-hex 11 b4 t7 refl refl h4
      ∙ valid-dash 13 t8 refl refl
      ∙ valid-hex 14 b7 t9 refl refl h7
      ∙ valid-hex 16 b6 t10 refl refl h6
      ∙ valid-dash 18 t11 refl refl
      ∙ valid-hex 19 b8 t12 refl refl h8
      ∙ valid-hex 21 b9 t13 refl refl h9
      ∙ valid-dash 23 t14 refl refl
      ∙ valid-hex 24 b10 t15 refl refl h10
      ∙ valid-hex 26 b11 t16 refl refl h11
      ∙ valid-hex 28 b12 t17 refl refl h12
      ∙ valid-hex 30 b13 t18 refl refl h13
      ∙ valid-hex 32 b14 t19 refl refl h14
      ∙ valid-hex 34 b15 [] refl refl h15
      ∙ valid-end

  -- The text that guid_to_string() writes for any 16 bytes is read back as the same bytes by
  -- string_to_guid_mixed().
  pub string_to_guid_mixed-guid_to_string : string_to_guid_mixed (guid_to_string guid) ≡ some guid
  unfolding string_to_guid_mixed
  string_to_guid_mixed-guid_to_string = rw guid_to_string-text (
      rw text-valid (
        rw (pair_byte-hex b0 h0) (
          rw (pair_byte-hex b1 h1) (
            rw (pair_byte-hex b2 h2) (
              rw (pair_byte-hex b3 h3) (
                rw (pair_byte-hex b4 h4) (
                  rw (pair_byte-hex b5 h5) (
                    rw (pair_byte-hex b6 h6) (
                      rw (pair_byte-hex b7 h7) (
                        rw (pair_byte-hex b8 h8) (
                          rw (pair_byte-hex b9 h9) (
                            rw (pair_byte-hex b10 h10) (
                              rw (pair_byte-hex b11 h11) (
                                rw (pair_byte-hex b12 h12) (
                                  rw (pair_byte-hex b13 h13) (
                                    rw (pair_byte-hex b14 h14)
                                      (rw (pair_byte-hex b15 h15) refl)))))))))))))))))
