-- ===== src/Config/Smbios.antt =====
-- smbios_struct_size() and init_config_smbios() of common/lib/config.c. The table is the list of its
-- bytes, and a header is the rest of the table from there on.
use limine_eucleia.Prelude.{
  ℕ, zero, suc, ◌+◌, ◌-◌, Bool, not, ◌&&◌, Option, none, some, List, [], ◌∷◌, ltb, leb, ◌==◌,
  if◌then◌else◌, length, take, drop, get_or, Result, ok, panic, out_of_fuel, ◌>>=◌,
}
use limine_eucleia.Text.Strings.{strncmp}
use limine_eucleia.Config.Value.{is_equal}
use limine_eucleia.Config.Init.{Booted, text_of}

-- The index of the second of the first two NUL characters that follow each other, where the first
-- character has the index before this one.
unfoldable pub double_nul : (i : ℕ) → List ℕ → Option ℕ
double_nul i [] = none
double_nul i (a ∷ []) = none
double_nul i (a ∷ b ∷ s) =
    let rest = double_nul (suc i) (b ∷ s) in if a == 0 && b == 0 then some i else rest

abbrev pub header_size : ℕ
header_size = 4

abbrev pub struct_length : List ℕ → ℕ
struct_length s = get_or s 1 0

abbrev pub size_with : (header : ℕ) → Option ℕ → ℕ
size_with header none = 0
size_with header (some i) = header + i + 1

-- The code reads in the first bytes of the rest of the table; a read outside the table is a panic here.
abbrev pub reads {ℓ} : {A : Type ℓ} → (count : ℕ) → List ℕ → Result A → Result A
reads n s r = if leb n (length s) then r else panic

unfoldable pub smbios_struct_size : List ℕ → Result ℕ
smbios_struct_size s =
    if ltb (length s) header_size
    then ok 0
    else reads header_size s (
        if ltb (struct_length s) header_size
        then ok 0
        else if ltb (length s) (struct_length s)
        then ok 0
        else reads (struct_length s) s
            (ok (size_with (struct_length s) (double_nul 1 (drop (struct_length s) s)))))

-- "limine:config:".
abbrev pub config_prefix : List ℕ
config_prefix =
    b'l' ∷ b'i' ∷ b'm' ∷ b'i' ∷ b'n' ∷ b'e' ∷ b':' ∷ b'c' ∷ b'o' ∷ b'n' ∷ b'f' ∷ b'i' ∷ b'g' ∷ b':'
    ∷ []

-- The first string of a structure, up to the end of the structure.
abbrev pub struct_text : (size : ℕ) → List ℕ → List ℕ
struct_text size s = text_of (take (size - struct_length s) (drop (struct_length s) s))

abbrev pub is_config : (size : ℕ) → List ℕ → Bool
is_config size s =
    get_or s 0 0 == 11
    && ltb 14 (size - struct_length s)
    && is_equal (strncmp (struct_text size s) config_prefix 14)
    && ltb 14 (length (struct_text size s))

abbrev pub Walk : Type 0
Walk = (struct_num : ℕ) → List ℕ → Result (Option (List ℕ))

-- What follows at a structure of a size, which is 0 where the structure is invalid.
abbrev pub walk_size : Walk → (struct_num : ℕ) → List ℕ → (size : ℕ) → Result (Option (List ℕ))
walk_size again n s zero = ok none
walk_size again n s (suc k) = reads (suc k) s (
    if is_config (suc k) s
    then ok (some (drop 14 (struct_text (suc k) s)))
    else if leb (length s) (suc k)
    then ok none
    else again (suc n) (drop (suc k) s))

-- The loop; a count of 0 is no limit.
unfoldable pub walk : (fuel struct_count : ℕ) → Walk
walk zero count n s = out_of_fuel
walk (suc fuel) count n s =
    if not (count == 0) && leb count n
    then ok none
    else if ltb (length s) header_size
    then ok none
    else reads header_size s (
        if get_or s 0 0 == 127
        then ok none
        else smbios_struct_size s >>= walk_size (walk fuel count) n s)

-- What an entry point says: where the table is, and for the 32-bit one also the number of structures.
pub record EntryPoint : Type 0 where
  pub table : Option (List ℕ)
  pub number_of_structures : ℕ

abbrev pub walk_table : (count : ℕ) → Option (List ℕ) → Result (Option (List ℕ))
walk_table count none = ok none
walk_table count (some s) = if length s == 0 then ok none else walk (suc (length s)) count 0 s

-- The configuration in the tables: the 64-bit entry point is taken before the 32-bit one.
unfoldable pub smbios_config : (entry_32 entry_64 : Option EntryPoint) → Result (Option (List ℕ))
smbios_config none none = ok none
smbios_config (some e) none = walk_table e.number_of_structures e.table
smbios_config e32 (some e) = walk_table 0 e.table

abbrev pub start : (List ℕ → Result Booted) → Option (List ℕ) → Result (Option Booted)
start init none = ok none
start init (some file) = init file >>= λ b. ok (some b)

-- `ok none` is false; `init` is init_config(). The request for the copy of the configuration is taken to
-- be granted.
unfoldable pub init_config_smbios :
    (init : List ℕ → Result Booted) (entry_32 entry_64 : Option EntryPoint) → Result (Option Booted)
init_config_smbios init e32 e64 = smbios_config e32 e64 >>= start init
