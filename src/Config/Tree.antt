-- ===== src/Config/Tree.antt =====
-- is_child(), is_directory() and create_menu_tree() of common/lib/config.c.
use limine_eucleia.Prelude.{
  ℕ, zero, suc, ◌+◌, Bool, true, false, not, ◌&&◌, Option, none, some, List, [], ◌∷◌, ltb, ◌==◌,
  if◌then◌else◌, length, drop, get_or, Result, ok, panic, out_of_fuel, ◌>>=◌,
}
use limine_eucleia.Config.Value.{Config, config_get_value}
use limine_eucleia.Config.Entry.{is_slash, config_get_entry_name, config_get_entry}

-- NOT_CHILD, DIRECT_CHILD and INDIRECT_CHILD.
pub data Child : Type 0 where
  not_child : Child
  direct_child : Child
  indirect_child : Child

-- Whether the first characters are slashes.
unfoldable pub has_slashes : (depth : ℕ) → List ℕ → Bool
has_slashes zero s = true
has_slashes (suc d) [] = false
has_slashes (suc d) (c ∷ s) = is_slash c && has_slashes d s

unfoldable pub child_of : (current_depth : ℕ) (buf : List ℕ) → Child
child_of d buf =
    if ltb (length buf) (d + 1)
    then not_child
    else if not (has_slashes d buf)
    then not_child
    else if is_slash (get_or buf d 0)
    then indirect_child
    else direct_child

abbrev pub child_named : (current_depth : ℕ) → Option (List ℕ) → Child
child_named d none = not_child
child_named d (some buf) = child_of d buf

unfoldable pub is_child : Config → (current_depth index : ℕ) → Child
is_child st d index = child_named d (config_get_entry_name st index)

abbrev pub directory_of : Child → Result Bool
directory_of not_child = ok false
directory_of indirect_child = panic
directory_of direct_child = ok true

unfoldable pub is_directory : Config → (current_depth index : ℕ) → Result Bool
is_directory st d index = directory_of (is_child st (suc d) (suc index))

-- `struct menu_entry *`: `null`, or an entry; `parent` is the entry that a `sub` belongs to.
pub data MenuEntry : Type 0 where
  null : MenuEntry
  entry :
      (name : List ℕ) (comment : Option (List ℕ)) (sub : MenuEntry) (expanded : Bool)
      (body : List ℕ) (next : MenuEntry)
      → MenuEntry

-- MAX_MENU_NESTING.
abbrev pub max_menu_nesting : ℕ
max_menu_nesting = 64

unfoldable pub skip_spaces : List ℕ → List ℕ
skip_spaces [] = []
skip_spaces (c ∷ s) = if c == b' ' then skip_spaces s else c ∷ s

abbrev pub text_or_empty : Option (List ℕ) → List ℕ
text_or_empty none = []
text_or_empty (some s) = s

abbrev pub is_expanded : (current_depth : ℕ) (name : List ℕ) → Bool
is_expanded d name = get_or name d 0 == b'+'

abbrev pub label : (current_depth : ℕ) (name : List ℕ) → List ℕ
label d name = skip_spaces (drop (if is_expanded d name then suc d else d) name)

abbrev pub comment_key : List ℕ
comment_key = b'C' ∷ b'O' ∷ b'M' ∷ b'M' ∷ b'E' ∷ b'N' ∷ b'T' ∷ []

-- An entry, given what is below and behind it.
unfoldable pub entry_with :
    Config
    → (current_depth : ℕ) (name body : List ℕ) (is_dir : Bool) (sub next : MenuEntry) → MenuEntry
entry_with st d name body is_dir sub next =
    entry (label d name) (config_get_value st (some body) 0 comment_key) sub
      (is_dir && is_expanded d name) body next

unfoldable pub new_menu_entry :
    Config → (current_depth i : ℕ) (is_dir : Bool) (sub next : MenuEntry) → MenuEntry
new_menu_entry st d i is_dir sub next =
    entry_with st d (text_or_empty (config_get_entry_name st i))
      (text_or_empty (config_get_entry st i)) is_dir sub next

abbrev pub Build : Type 0
Build = (current_depth index : ℕ) → Result MenuEntry

-- What follows at a direct child, given the function for the menus behind it.
abbrev pub at_child : Config → Build → (current_depth i : ℕ) → (is_dir : Bool) → Result MenuEntry
at_child st build d i false = build d (suc i) >>= λ next. ok (new_menu_entry st d i false null next)
at_child st build d i true =
    (if ltb max_menu_nesting (suc d) then panic else build (suc d) (suc i)) >>= λ sub.
    build d (suc i) >>= λ next. ok (new_menu_entry st d i true sub next)

abbrev pub step : Config → Build → (current_depth i : ℕ) → Child → Result MenuEntry
step st build d i not_child = ok null
step st build d i indirect_child = build d (suc i)
step st build d i direct_child = is_directory st d i >>= at_child st build d i

-- The loop of create_menu_tree() from an index on.
unfoldable pub entries_from : (fuel : ℕ) → Config → Build
entries_from zero st d i = out_of_fuel
entries_from (suc fuel) st d i = step st (entries_from fuel st) d i (is_child st d i)

-- Its requests for memory, and those of what it calls, are taken to be granted; init_config() asks first.
unfoldable pub create_menu_tree : (fuel : ℕ) → Config → Build
create_menu_tree fuel st d index =
    if ltb max_menu_nesting d then panic else entries_from fuel st d index
