-- ===== src/Ui/Tests.antt =====
-- Runs of the graphical interface's code, and its theorems at concrete inputs.
use limine_eucleia.Prelude.{ℕ, List, get_elem?, ◌≡◌, refl, true, some, arith, [], ◌∷◌, ◌++◌, inl}
use limine_eucleia.Text.Strings.{strcmp, strncmp, strchr}
use limine_eucleia.Ui.Document.{
  Property, trim, trim_left, trim_right, has_bad_character, text_lines, is_name, has_property,
  read_lines, document_read, mark, document_get,
}
use limine_eucleia.Ui.Documented.{ValidFields, document_read-get}
use limine_eucleia.Ui.Blend.{mix, blend}
use limine_eucleia.Ui.Values.{
  number, magnitude, whole, thousandths, fraction, parse_colour, hex_digits, hex_digit, config_path,
  prefix_length,
}
use limine_eucleia.Ui.Colours.{spell, parse_colour-spell}
use limine_eucleia.Ui.Display.{FbInfo, UiDisplay, display_init, display_position}
use limine_eucleia.Ui.Codepoint.{
  lead, follow, finish, next_codepoint, encode, Reads, next_codepoint-encode, next_codepoint-Reads,
}
use limine_eucleia.Ui.Rotated.{
  Ready, Initialised, Logical, display_init-Ready, display_position-Logical,
}

abbrev full_hd : FbInfo
full_hd = record {
  framebuffer_pitch = 7680;
  framebuffer_width = 1920;
  framebuffer_height = 1080;
  framebuffer_bpp = 32;
  red_mask_size = 8;
  red_mask_shift = 16;
  green_mask_size = 8;
  green_mask_shift = 8;
  blue_mask_size = 8;
  blue_mask_shift = 0;
  framebuffer_addr = 0x8000_0000;
}

abbrev portrait : UiDisplay
portrait = record { fb = full_hd; width = 1080; height = 1920; rotation = 1 }

display_init_run : display_init full_hd 1 ≡ some portrait
unfolding display_init
display_init_run = refl

display_position_run : display_position portrait 1919 7 ≡ some (7, 0)
unfolding display_position
display_position_run = refl

display_init-Ready_example : Initialised (display_init full_hd 1)
display_init-Ready_example = display_init-Ready full_hd 1

portrait-Ready : Ready portrait
unfolding display_init
portrait-Ready = display_init-Ready full_hd 1

display_position-Logical_example : Logical portrait 1919 7 (display_position portrait 1919 7)
display_position-Logical_example =
    display_position-Logical portrait portrait-Ready 1919 7 (omega arith) (omega arith)

-- The euro sign, and a surrogate.
next_codepoint_run : next_codepoint (0xe2 ∷ 0x82 ∷ 0xac ∷ 65 ∷ []) ≡ (0x20ac, 65 ∷ [])
unfolding next_codepoint lead follow finish
next_codepoint_run = refl

surrogate_run : next_codepoint (0xed ∷ 0xa0 ∷ 0x80 ∷ 65 ∷ []) ≡ (63, 65 ∷ [])
unfolding next_codepoint lead follow finish
surrogate_run = refl

next_codepoint-encode_example : next_codepoint (encode 0x20ac ++ (65 ∷ [])) ≡ (0x20ac, 65 ∷ [])
next_codepoint-encode_example =
    next_codepoint-encode 0x20ac (65 ∷ []) (omega arith) (inl (omega arith))

next_codepoint-Reads_example : Reads 0xe2 (0x82 ∷ 65 ∷ []) (next_codepoint (0xe2 ∷ 0x82 ∷ 65 ∷ []))
next_codepoint-Reads_example = next_codepoint-Reads 0xe2 (0x82 ∷ 65 ∷ [])

-- "-1.25u".
number_run :
    number (45 ∷ 49 ∷ 46 ∷ 50 ∷ 53 ∷ 117 ∷ [])
    ≡ some (record { negative = true; value = 1250; text = 117 ∷ [] })
unfolding number magnitude whole thousandths fraction
number_run = refl

-- "#0aF0ff".
parse_colour_run : parse_colour (35 ∷ 48 ∷ 97 ∷ 70 ∷ 48 ∷ 102 ∷ 102 ∷ []) ≡ some 0x0a_f0ff
unfolding parse_colour hex_digits hex_digit
parse_colour_run = refl

parse_colour-spell_example : parse_colour (35 ∷ spell 0x0a_f0ff) ≡ some 0x0a_f0ff
parse_colour-spell_example = parse_colour-spell 0x0a_f0ff (omega arith)

-- "/a/b" and "c".
config_path_run : config_path 64 (47 ∷ 97 ∷ 47 ∷ 98 ∷ []) (99 ∷ []) ≡ some (47 ∷ 97 ∷ 47 ∷ 99 ∷ [])
unfolding config_path prefix_length
config_path_run = refl

-- White over black at half the opacity.
blend_run : blend 0 0xff_ffff 128 ≡ 0x80_8080
unfolding blend mix
blend_run = refl

-- `enabled: yes`, a section, and `size: 9`.
abbrev document : List ℕ
document =
    101 ∷ 110 ∷ 97 ∷ 98 ∷ 108 ∷ 101 ∷ 100 ∷ 58 ∷ 32 ∷ 121 ∷ 101 ∷ 115 ∷ 10 ∷ 91 ∷ 109 ∷ 101 ∷ 110
    ∷ 117 ∷ 93 ∷ 10 ∷ 32 ∷ 115 ∷ 105 ∷ 122 ∷ 101 ∷ 32 ∷ 58 ∷ 32 ∷ 57 ∷ 13 ∷ 10 ∷ []

document_get_run :
    (document_get
      (document_read document)
      (109 ∷ 101 ∷ 110 ∷ 117 ∷ [])
      (115 ∷ 105 ∷ 122 ∷ 101 ∷ [])).1
    ≡ some (57 ∷ [])
unfolding document_get document_read read_lines text_lines has_bad_character has_property mark trim
    trim_left trim_right is_name strcmp strncmp strchr
document_get_run = refl

document_read-get_example :
    ValidFields (document_read document).fields
    × ((i : ℕ) (f : Property)
        → get_elem? (document_read document).fields i ≡ some f
        → (document_get (document_read document) f.section f.key).1 ≡ some f.value)
document_read-get_example = document_read-get document
