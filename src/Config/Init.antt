-- ===== src/Config/Init.antt =====
-- init_config() of common/lib/config.c: the checksum, the passes over the text, the menu, and the cut
-- that leaves the text before the first entry.
use limine_eucleia.Prelude.{
  ℕ, zero, suc, ◌+◌, ◌-◌, ◌*◌, ◌^◌, Bool, true, false, ◌&&◌, Option, none, some, List, [], ◌∷◌,
  ◌++◌, ltb, ◌==◌, if◌then◌else◌, length, take, drop, replicate, Result, ok, panic, ◌>>=◌,
}
use limine_eucleia.Text.Chars.{digit_to_int}
use limine_eucleia.Config.Value.{Config, separator}
use limine_eucleia.Config.Entry.{is_slash, find_entry, line_end}
use limine_eucleia.Config.Tree.{MenuEntry, create_menu_tree}
use limine_eucleia.Config.Strip.{strip}
use limine_eucleia.Config.Macro.{Macro, load_macros}
use limine_eucleia.Config.Expand.{expand_macros}

-- `memcmp(a, b, n) == 0`, for arrays of the same length.
unfoldable pub same_bytes : List ℕ → List ℕ → Bool
same_bytes [] [] = true
same_bytes [] (y ∷ ys) = false
same_bytes (x ∷ xs) [] = false
same_bytes (x ∷ xs) (y ∷ ys) = x == y && same_bytes xs ys

abbrev pub digit_pair : Option ℕ → Option ℕ → Result (List ℕ) → Result (List ℕ)
digit_pair none lo rest = panic
digit_pair (some h) none rest = panic
digit_pair (some h) (some l) rest = rest >>= λ out. ok ((h * 16 + l) ∷ out)

-- The bytes that pairs of digits spell.
unfoldable pub hash_bytes : List ℕ → Result (List ℕ)
hash_bytes [] = ok []
hash_bytes (c ∷ []) = ok []
hash_bytes (c ∷ d ∷ s) = digit_pair (digit_to_int c) (digit_to_int d) (hash_bytes s)

-- CONFIG_B2SUM_EMPTY.
abbrev pub no_sum : List ℕ
no_sum = replicate 128 b'0'

-- Whether the text has a checksum, which then is the right one.
unfoldable pub check_sum : (blake2b : List ℕ → List ℕ) (config_b2sum file : List ℕ) → Result Bool
check_sum blake2b config_b2sum file =
    if same_bytes config_b2sum no_sum
    then ok false
    else hash_bytes config_b2sum >>= λ hash.
        if same_bytes hash (blake2b file) then ok true else panic

-- The text before the terminator.
unfoldable pub text_of : List ℕ → List ℕ
text_of [] = []
text_of (c ∷ s) = if c == 0 then [] else c ∷ text_of s

-- How many characters stand before the last slash, or none where there is no slash.
unfoldable pub last_slash : List ℕ → Option ℕ
last_slash [] = none
last_slash (c ∷ s) = elim (last_slash s) [
  | some k ↦ some (suc k)
  | none ↦ if is_slash c then some 0 else none
]

-- The text with a terminator written before the slash.
abbrev pub cut_at : List ℕ → Option ℕ → List ℕ
cut_at s none = s
cut_at s (some zero) = s
cut_at s (some (suc k)) = take k s

-- The text from the start of the first entry's body on, which is where config_get_entry() points.
abbrev pub first_body : Option (List ℕ) → Option (List ℕ)
first_body none = none
first_body (some s) = some (line_end (drop 2 s))

-- The slash is looked for from there back.
abbrev pub cut_before : List ℕ → (body : Option (List ℕ)) → List ℕ
cut_before s none = s
cut_before s (some body) = cut_at s (last_slash (take (suc (length s - length body)) s))

unfoldable pub cut_config : List ℕ → List ℕ
cut_config s = cut_before s (first_body (find_entry true 0 s))

-- What the values of the macros that are built in stand for.
pub record Platform : Type 0 where
  pub arch : List ℕ
  pub fw_type : List ℕ
  pub loader_arch : List ℕ

abbrev pub built_in : Platform → List Macro
built_in p =
    record {
      name = b'L' ∷ b'O' ∷ b'A' ∷ b'D' ∷ b'E' ∷ b'R' ∷ b'_' ∷ b'A' ∷ b'R' ∷ b'C' ∷ b'H' ∷ [];
      value = p.loader_arch;
    }
    ∷ record { name = b'F' ∷ b'W' ∷ b'_' ∷ b'T' ∷ b'Y' ∷ b'P' ∷ b'E' ∷ []; value = p.fw_type }
    ∷ record { name = b'A' ∷ b'R' ∷ b'C' ∷ b'H' ∷ []; value = p.arch }
    ∷ []

-- `editor_enabled` and `secure_boot_active` are those of the rest of the program.
pub record Booted : Type 0 where
  pub config : Config
  pub menu_tree : MenuEntry
  pub editor_enabled : Bool
  pub secure_boot_active : Bool

-- SIZE_MAX / 4, for a 64-bit machine.
abbrev pub max_config : ℕ
max_config = 2 ^ 62 - 1

abbrev pub ready : List ℕ → Config
ready s = record { config_ready = true; config_addr = some s }

-- What the requests for memory come to in a run, part by part: whether each of the part is granted. The
-- first that is refused is a panic of ext_mem_alloc(), and nothing but panics ends a part early.
pub record Memory : Type 0 where
  -- The copy of the file for UEFI, of a size; elsewhere there is no request, and this is true.
  pub raw_config : (size : ℕ) → Bool
  -- The macros that are built in, and one for each place that opens a definition.
  pub macros : Bool
  -- The buffer of the expansion, of a size.
  pub new_config : (size : ℕ) → Bool
  -- The names of the macros that are used.
  pub names : Bool
  -- The requests of create_menu_tree(), config_get_entry_name() and strdup().
  pub menu : Bool

-- The menu of the text that the passes leave, and the cut.
unfoldable pub finish_init : Memory → (editor secure checked : Bool) → List ℕ → Result Booted
finish_init m editor secure checked s =
    (if m.menu then create_menu_tree (suc (length s)) (ready s) 1 0 else panic) >>= λ tree.
    ok (record {
      config = ready (cut_config s);
      menu_tree = tree;
      editor_enabled = if checked then false else editor;
      secure_boot_active = if checked then secure else false;
    })

-- The file with the separator and the terminator behind it.
abbrev pub buffer : List ℕ → List ℕ
buffer file = file ++ separator ∷ 0 ∷ []

-- Into the new buffer, for which a request is made.
abbrev pub expand_into : Memory → List ℕ → List Macro → Result (List ℕ)
expand_into m s macros =
    if ltb max_config (length s)
    then panic
    else if m.new_config (length s * 4) && m.names
    then expand_macros macros s
    else panic

unfoldable pub expanded : Memory → Platform → List ℕ → Result (List ℕ)
expanded m p s = (if m.macros then load_macros (built_in p) s else panic) >>= expand_into m s

-- The passes over the text, once the copy of the file is made.
abbrev pub passed : Memory → Platform → (file : List ℕ) → Result (List ℕ)
passed m p file = if m.raw_config (length file) then strip (buffer file) >>= expanded m p else panic

unfoldable pub init_config :
    (m : Memory) (blake2b : List ℕ → List ℕ) (p : Platform) (config_b2sum : List ℕ)
    (editor secure : Bool) (file : List ℕ)
    → Result Booted
init_config m blake2b p config_b2sum editor secure file =
    check_sum blake2b config_b2sum file >>= λ checked.
    passed m p file >>= λ s. finish_init m editor secure checked (text_of s)
