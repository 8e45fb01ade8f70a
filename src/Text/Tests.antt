-- ===== src/Text/Tests.antt =====
-- Runs of the code on texts, and its theorems at concrete inputs.
use limine_eucleia.Prelude.{◌≡◌, refl, map, some, [], ◌∷◌, ◌++◌, arith}
use limine_eucleia.Text.Numeral.{digit_char, value}
use limine_eucleia.Text.Strtoul.{strtoul}
use limine_eucleia.Text.Saturated.{saturated, strtoul-spelled}
use limine_eucleia.Text.Guid.{string_to_guid_mixed, guid_to_string}
use limine_eucleia.Text.GuidText.{string_to_guid_mixed-guid_to_string}

strtoul-spelled_example :
    strtoul (map digit_char (4 ∷ 2 ∷ []) ++ []) 10 ≡ (saturated (value 10 0 (4 ∷ 2 ∷ [])), [])
strtoul-spelled_example =
    strtoul-spelled 10 4 (2 ∷ []) [] (omega arith) (omega arith) (λ e. cc)
      (omega arith, (omega arith, tt)) refl

string_to_guid_mixed-guid_to_string_example :
    string_to_guid_mixed (
      guid_to_string
        (0x0f ∷ 1 ∷ 2 ∷ 3 ∷ 4 ∷ 5 ∷ 6 ∷ 7 ∷ 8 ∷ 9 ∷ 10 ∷ 11 ∷ 12 ∷ 13 ∷ 14 ∷ 0xff ∷ []))
    ≡ some (0x0f ∷ 1 ∷ 2 ∷ 3 ∷ 4 ∷ 5 ∷ 6 ∷ 7 ∷ 8 ∷ 9 ∷ 10 ∷ 11 ∷ 12 ∷ 13 ∷ 14 ∷ 0xff ∷ [])
string_to_guid_mixed-guid_to_string_example =
    string_to_guid_mixed-guid_to_string 0x0f 1 2 3 4 5 6 7 8 9 10 11 12 13 14 0xff (omega arith)
      (omega arith) (omega arith) (omega arith) (omega arith) (omega arith) (omega arith)
      (omega arith) (omega arith) (omega arith) (omega arith) (omega arith) (omega arith)
      (omega arith) (omega arith) (omega arith)
