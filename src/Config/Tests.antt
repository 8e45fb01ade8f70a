-- ===== src/Config/Tests.antt =====
-- Runs of the configuration code, and its theorems at concrete inputs.
use limine_eucleia.Prelude.{
  ℕ, suc, ◌*◌, ◌≤◌, ◌≡◌, refl, true, false, none, some, List, [], ◌∷◌, ◌++◌, arith, ok, panic,
  length, drop, Ends, Returns,
}
use limine_eucleia.Config.Value.{
  separator, is_key, skip_blanks, count_blanks, line, read_value, value_loop, search, chosen,
  config_get_value, tuple_of, config_get_tuple,
}
use limine_eucleia.Config.Lines.{lines, more, values, keyed}
use limine_eucleia.Config.Lookup.{config_get_value-lines}
use limine_eucleia.Config.Entry.{
  find_entry, config_get_entry_name, line_end, entry_body, config_get_entry,
}
use limine_eucleia.Config.Sections.{
  Section, is_entry, body_lines, sections, config_get_entry-sections,
}
use limine_eucleia.Config.Tree.{
  null, has_slashes, child_of, is_child, entries_from, create_menu_tree, max_menu_nesting,
}
use limine_eucleia.Config.Outline.{Outline, done, item, outline, menu_of, Spelled}
use limine_eucleia.Config.Built.{create_menu_tree-menu_of, create_menu_tree-parentless}
use limine_eucleia.Config.Strip.{
  count_skipped, skip_at, strip_loop, strip, Stripped, strip-Stripped,
}
use limine_eucleia.Config.Macro.{
  Macro, opening, text_before, text_from, load_loop, load_macros, macro_value,
}
use limine_eucleia.Config.Expand.{expand_loop, expand_macros}
use limine_eucleia.Config.Room.{expand_macros-length}
use limine_eucleia.Config.Init.{
  text_of, Platform, Memory, ready, cut_config, same_bytes, no_sum, init_config,
}
use limine_eucleia.Config.Booted.{init_config-menu_of}
use limine_eucleia.Config.Ending.{Nested, init_config-Nested}
use limine_eucleia.Config.Verified.{Verified, init_config-Verified}
use limine_eucleia.Config.Smbios.{double_nul, smbios_struct_size, walk, walk_table}
use limine_eucleia.Config.Found.{FoundIn}
use limine_eucleia.Config.Walked.{walk_table-FoundIn}
use limine_eucleia.Text.Strings.{strncmp, strncasecmp, strcmp}
use limine_eucleia.Text.Chars.{tolower}

-- "a: x", "A:\ty" and "b: z".
abbrev settings : List ℕ
settings =
    b'a' ∷ b':' ∷ b' ' ∷ b'x' ∷ b'\n' ∷ b'A' ∷ b':' ∷ b'\t' ∷ b'y' ∷ b'\n' ∷ b'b' ∷ b':' ∷ b' '
    ∷ b'z' ∷ b'\n' ∷ []

second_value : config_get_value (ready settings) none 1 (b'a' ∷ []) ≡ some (b'y' ∷ [])
unfolding config_get_value chosen search value_loop is_key read_value skip_blanks count_blanks line
    strncasecmp tolower
second_value = refl

a-OneLine : b'a' ≡ separator → ⊥
a-OneLine e = cc

config_get_value-lines_example :
    config_get_value (ready settings) (some settings) 1 (b'a' ∷ []) ≡ some (b'y' ∷ [])
unfolding values keyed line more skip_blanks tolower
config_get_value-lines_example =
    config_get_value-lines (ready settings) settings 1 (b'a' ∷ []) refl (a-OneLine, tt)

-- The value of "b" belongs to the second "a", so that the first has none.
first_tuple :
    config_get_tuple (ready settings) none 0 (b'a' ∷ []) (b'b' ∷ [])
    ≡ record { value1 = some (b'x' ∷ []); value2 = none }
unfolding config_get_tuple tuple_of chosen search value_loop is_key read_value skip_blanks
    count_blanks line strncasecmp tolower
first_tuple = refl

second_tuple :
    config_get_tuple (ready settings) none 1 (b'a' ∷ []) (b'b' ∷ [])
    ≡ record { value1 = some (b'y' ∷ []); value2 = some (b'z' ∷ []) }
unfolding config_get_tuple tuple_of chosen search value_loop is_key read_value skip_blanks
    count_blanks line strncasecmp tolower
second_tuple = refl

-- "/+m", "//e" with "q: 1", and "/w".
abbrev menu_text : List ℕ
menu_text =
    b'/' ∷ b'+' ∷ b'm' ∷ b'\n' ∷ b'/' ∷ b'/' ∷ b'e' ∷ b'\n' ∷ b'q' ∷ b':' ∷ b'1' ∷ b'\n' ∷ b'/'
    ∷ b'w' ∷ []

abbrev menu_file : List ℕ
menu_file = menu_text ++ separator ∷ []

abbrev menu_outline : Outline
menu_outline =
    item (b'm' ∷ []) true (b'\n' ∷ [])
      (item (b'e' ∷ []) false (b'\n' ∷ b'q' ∷ b':' ∷ b'1' ∷ b'\n' ∷ []) done done)
      (item (b'w' ∷ []) false (b'\n' ∷ []) done done)

menu-spelled : sections (lines menu_file) ≡ outline 1 menu_outline
unfolding sections line more is_entry body_lines outline
menu-spelled = refl

menu-Spelled : Spelled max_menu_nesting menu_outline
menu-Spelled = (
  (refl, refl, refl),
  refl,
  ((refl, refl, refl), refl, tt, tt),
  ((refl, refl, refl), refl, tt, tt),
)

abbrev second_section : Section
second_section = record {
  name = b'/' ∷ b'/' ∷ b'e' ∷ [];
  body = b'\n' ∷ b'q' ∷ b':' ∷ b'1' ∷ b'\n' ∷ [];
}

config_get_entry-sections_example :
    config_get_entry (ready menu_file) 1 ≡ some (b'\n' ∷ b'q' ∷ b':' ∷ b'1' ∷ b'\n' ∷ [])
unfolding sections line more is_entry body_lines
config_get_entry-sections_example =
    config_get_entry-sections (ready menu_file) menu_file 1 second_section (refl, refl) refl
      (omega arith)

create_menu_tree-menu_of_example :
    create_menu_tree (suc (length menu_file)) (ready menu_file) 1 0 ≡ ok (menu_of menu_outline)
create_menu_tree-menu_of_example =
    create_menu_tree-menu_of (ready menu_file) menu_file (refl, refl) menu_outline menu-Spelled
      menu-spelled

-- "/a" and "///b".
abbrev orphan_file : List ℕ
orphan_file = b'/' ∷ b'a' ∷ b'\n' ∷ b'/' ∷ b'/' ∷ b'/' ∷ b'b' ∷ b'\n' ∷ []

create_menu_tree-parentless_example :
    create_menu_tree (suc (length orphan_file)) (ready orphan_file) 1 0 ≡ panic
unfolding sections line more is_entry body_lines
create_menu_tree-parentless_example =
    create_menu_tree-parentless (ready orphan_file) orphan_file (refl, refl)
      (record { name = b'/' ∷ b'a' ∷ []; body = b'\n' ∷ [] })
      (record { name = b'/' ∷ b'/' ∷ b'/' ∷ b'b' ∷ []; body = b'\n' ∷ [] }) [] 3 refl (refl, refl)
      (refl, (refl, (refl, refl))) (omega arith)

-- At the top, a child without a parent is passed over.
orphan-run : create_menu_tree 9 (ready (b'/' ∷ b'/' ∷ b'b' ∷ b'\n' ∷ [])) 1 0 ≡ ok null
unfolding create_menu_tree entries_from is_child config_get_entry_name find_entry line child_of
    has_slashes
orphan-run = refl

-- The line behind an entry without a name is lost.
nameless-run :
    config_get_entry (ready (b'/' ∷ b'\n' ∷ b'q' ∷ b':' ∷ b'1' ∷ b'\n' ∷ [])) 0 ≡ some (b'\n' ∷ [])
unfolding config_get_entry find_entry line_end entry_body
nameless-run = refl

-- A blank before a carriage return stays at the end of the line.
trailing-run : strip (b'a' ∷ b' ' ∷ b'\r' ∷ b'\n' ∷ []) ≡ ok (b'a' ∷ b' ' ∷ b'\n' ∷ [])
unfolding strip strip_loop skip_at count_skipped count_blanks
trailing-run = refl

strip-Stripped_example : Returns (strip (b'a' ∷ b' ' ∷ b'\r' ∷ b'\n' ∷ [])) (Stripped true)
strip-Stripped_example = strip-Stripped (b'a' ∷ b' ' ∷ b'\r' ∷ b'\n' ∷ [])

-- "${X}=ab" and "${X}".
abbrev macro_text : List ℕ
macro_text =
    b'$' ∷ b'{' ∷ b'X' ∷ b'}' ∷ b'=' ∷ b'a' ∷ b'b' ∷ b'\n' ∷ b'$' ∷ b'{' ∷ b'X' ∷ b'}' ∷ b'\n' ∷ []

abbrev macro_x : Macro
macro_x = record { name = b'X' ∷ []; value = b'a' ∷ b'b' ∷ [] }

load-run : load_macros [] macro_text ≡ ok (macro_x ∷ [])
unfolding load_macros load_loop opening text_before text_from
load-run = refl

expand-run : expand_macros (macro_x ∷ []) macro_text ≡ ok (b'\n' ∷ b'a' ∷ b'b' ∷ b'\n' ∷ [])
unfolding expand_macros expand_loop opening text_before text_from macro_value strcmp
expand-run = refl

-- The second line of a text that begins with an empty line: the name is "{X", and a use of X is empty.
abbrev behind_empty_line : List ℕ
behind_empty_line = b'\n' ∷ macro_text

load-behind_empty_line :
    load_macros [] behind_empty_line
    ≡ ok (record { name = b'{' ∷ b'X' ∷ []; value = b'a' ∷ b'b' ∷ [] } ∷ [])
unfolding load_macros load_loop opening text_before text_from
load-behind_empty_line = refl

expand-behind_empty_line :
    expand_macros
      (record { name = b'{' ∷ b'X' ∷ []; value = b'a' ∷ b'b' ∷ [] } ∷ [])
      behind_empty_line
    ≡ ok (b'\n' ∷ b'\n' ∷ [])
unfolding expand_macros expand_loop opening text_before text_from macro_value strcmp
expand-behind_empty_line = refl

expand_macros-length_example :
    Ends (expand_macros (macro_x ∷ []) macro_text) (λ out. length out ≤ length macro_text * 4)
expand_macros-length_example = expand_macros-length (macro_x ∷ []) macro_text

abbrev platform : Platform
platform = record { arch = b'x' ∷ []; fw_type = b'u' ∷ []; loader_arch = b'x' ∷ [] }

-- Every request is granted.
abbrev ample : Memory
ample = record {
  raw_config = λ size. true;
  macros = true;
  new_config = λ size. true;
  names = true;
  menu = true;
}

-- The buffer of the expansion is not granted.
abbrev scarce : Memory
scarce = record ample { new_config = λ size. false }

abbrev no_hash : List ℕ → List ℕ
no_hash file = []

init_config-menu_of_example :
    init_config ample no_hash platform no_sum true true menu_text
    ≡ ok (record {
      config = ready (cut_config menu_file);
      menu_tree = menu_of menu_outline;
      editor_enabled = true;
      secure_boot_active = false;
    })
init_config-menu_of_example =
    init_config-menu_of ample no_hash platform true true menu_text menu_outline
      (refl, refl, refl, refl, refl)
      (
        refl,
        refl,
        refl,
        (
          refl,
          refl,
          refl,
          (
            refl,
            refl,
            refl,
            (
              refl,
              refl,
              refl,
              (
                refl,
                refl,
                refl,
                (
                  refl,
                  refl,
                  refl,
                  (
                    refl,
                    refl,
                    refl,
                    (
                      refl,
                      refl,
                      refl,
                      (
                        refl,
                        refl,
                        refl,
                        (
                          refl,
                          refl,
                          refl,
                          (
                            refl,
                            refl,
                            refl,
                            (
                              refl,
                              refl,
                              refl,
                              (
                                refl,
                                refl,
                                refl,
                                (refl, refl, refl, (refl, refl, refl, (refl, refl, refl, tt))),
                              ),
                            ),
                          ),
                        ),
                      ),
                    ),
                  ),
                ),
              ),
            ),
          ),
        ),
      )
      (
        refl,
        (
          refl,
          (
            refl,
            (
              refl,
              (
                refl,
                (
                  refl,
                  (
                    refl,
                    (refl, (refl, (refl, (refl, (refl, (refl, (refl, (refl, (refl, tt))))))))),
                  ),
                ),
              ),
            ),
          ),
        ),
      )
      (
        refl,
        (
          refl,
          (
            refl,
            (
              refl,
              (refl, (refl, (refl, (refl, (refl, (refl, (refl, (refl, (refl, (refl, tt)))))))))),
            ),
          ),
        ),
      )
      (omega arith) menu-Spelled menu-spelled

init_config-Nested_example :
    Ends (init_config scarce no_hash platform no_sum true true menu_text) Nested
init_config-Nested_example = init_config-Nested scarce no_hash platform no_sum true true menu_text

-- A checksum of the wrong length, whose hash is a single byte.
init_config-Verified_example :
    Ends
      (init_config ample (λ file. 255 ∷ []) platform (b'f' ∷ b'f' ∷ []) true true menu_text)
      (Verified (λ file. 255 ∷ []) (b'f' ∷ b'f' ∷ []) menu_text true)
unfolding same_bytes
init_config-Verified_example =
    init_config-Verified ample (λ file. 255 ∷ []) platform (b'f' ∷ b'f' ∷ []) true true menu_text
      refl

-- An OEM strings structure with a configuration of one character, and the end of the table.
abbrev smbios_table : List ℕ
smbios_table =
    11 ∷ 5 ∷ 0 ∷ 0 ∷ 1 ∷ b'l' ∷ b'i' ∷ b'm' ∷ b'i' ∷ b'n' ∷ b'e' ∷ b':' ∷ b'c' ∷ b'o' ∷ b'n' ∷ b'f'
    ∷ b'i' ∷ b'g' ∷ b':' ∷ b'x' ∷ 0 ∷ 0 ∷ 127 ∷ 4 ∷ 0 ∷ 0 ∷ 0 ∷ 0 ∷ []

smbios_run : walk_table 1 (some smbios_table) ≡ ok (some (b'x' ∷ []))
unfolding walk smbios_struct_size double_nul strncmp text_of
smbios_run = refl

-- The first structure is of another type.
smbios-type-run : walk_table 1 (some (12 ∷ drop 1 smbios_table)) ≡ ok none
unfolding walk smbios_struct_size double_nul strncmp text_of
smbios-type-run = refl

walk_table-FoundIn_example : Returns (walk_table 1 (some smbios_table)) (FoundIn 1 0 smbios_table)
walk_table-FoundIn_example = walk_table-FoundIn 1 smbios_table
