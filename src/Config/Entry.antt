-- ===== src/Config/Entry.antt =====
-- config_get_entry_name() and config_get_entry() of common/lib/config.c.
use limine_eucleia.Prelude.{
  ℕ, ◌-◌, Bool, true, false, not, ◌&&◌, Option, none, some, List, [], ◌∷◌, ◌==◌, if◌then◌else◌,
  drop,
}
use limine_eucleia.Config.Value.{Config, separator, line}

abbrev pub is_slash : ℕ → Bool
is_slash c = c == b'/'

-- The text from the slash that begins the line of the entry with the index; the flag tells whether a
-- line begins here.
unfoldable pub find_entry : (starts : Bool) (index : ℕ) → List ℕ → Option (List ℕ)
find_entry starts index [] = none
find_entry starts index (c ∷ s) =
    let hit = is_slash c && starts in
    let rest = find_entry (c == separator) (if hit then index - 1 else index) s in
    if hit && index == 0 then some (c ∷ s) else rest

abbrev pub loaded : Config → Option (List ℕ)
loaded st = if not st.config_ready then none else st.config_addr

abbrev pub entry_name : Option (List ℕ) → Option (List ℕ)
entry_name none = none
entry_name (some s) = some (line s)

-- The request for the copy of the name is taken to be granted.
unfoldable pub config_get_entry_name : Config → (index : ℕ) → Option (List ℕ)
config_get_entry_name st index = elim (loaded st) [
  | none ↦ none
  | some s ↦ entry_name (find_entry true index s)
]

-- From the end of the line on.
unfoldable pub line_end : List ℕ → List ℕ
line_end [] = []
line_end (c ∷ s) = if c == separator then c ∷ s else line_end s

-- The text before the next slash that begins a line.
unfoldable pub entry_body : (starts : Bool) → List ℕ → List ℕ
entry_body starts [] = []
entry_body starts (c ∷ s) =
    let rest = entry_body (c == separator) s in if is_slash c && starts then [] else c ∷ rest

-- The end of the name is looked for from the second character behind the slash on.
abbrev pub body_of : Option (List ℕ) → Option (List ℕ)
body_of none = none
body_of (some s) = some (entry_body false (line_end (drop 2 s)))

-- The body; `*size` is its length.
unfoldable pub config_get_entry : Config → (index : ℕ) → Option (List ℕ)
config_get_entry st index = elim (loaded st) [
  | none ↦ none
  | some s ↦ body_of (find_entry true index s)
]
