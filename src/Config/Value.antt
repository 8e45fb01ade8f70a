-- ===== src/Config/Value.antt =====
-- config_get_value() and config_get_tuple() of common/lib/config.c.
use Prim.Native.Nat.{Ordering, eq}
use limine_eucleia.Prelude.{
  ℕ, suc, ◌+◌, ◌-◌, Bool, true, false, not, ◌&&◌, ◌||◌, Option, none, some, List, [], ◌∷◌, ltb,
  ◌==◌, if◌then◌else◌, length, take, drop, get_or,
}
use limine_eucleia.Text.Strings.{strncasecmp}

-- `config_ready` and `config_addr`.
pub record Config : Type 0 where
  pub config_ready : Bool
  pub config_addr : Option (List ℕ)

abbrev pub separator : ℕ
separator = b'\n'

abbrev pub is_blank : ℕ → Bool
is_blank c = c == b' ' || c == b'\t'

abbrev pub is_equal : Ordering → Bool
is_equal eq = true
is_equal o = false

-- Whether the text begins with the key, in any case, and a colon.
unfoldable pub is_key : (key s : List ℕ) → Bool
is_key key s = is_equal (strncasecmp s key (length key)) && get_or (drop (length key) s) 0 0 == b':'

unfoldable pub skip_blanks : List ℕ → List ℕ
skip_blanks [] = []
skip_blanks (c ∷ s) = if is_blank c then skip_blanks s else c ∷ s

unfoldable pub count_blanks : List ℕ → ℕ
count_blanks [] = 0
count_blanks (c ∷ s) = if is_blank c then suc (count_blanks s) else 0

-- The characters before the next separator.
unfoldable pub line : List ℕ → List ℕ
line [] = []
line (c ∷ s) = if c == separator then [] else c ∷ line s

-- CONFIG_VALUE_BUF_SIZE less the terminator.
abbrev pub max_value : ℕ
max_value = 4095

-- The value, and how far from the start of the text it stands, which is `lastkey`.
pub record Found : Type 0 where
  pub value : List ℕ
  pub at : ℕ

unfoldable pub read_value : (key : List ℕ) (i : ℕ) → List ℕ → Found
read_value key i s =
    let behind = drop (suc (length key)) s in
    record {
      value = take max_value (line (skip_blanks behind));
      at = i + length key + 1 + count_blanks behind;
    }

-- The loop at `i`; the flag tells whether a line begins there.
unfoldable pub value_loop : (key : List ℕ) (starts : Bool) (index i : ℕ) → List ℕ → Option Found
value_loop key starts index i [] = none
value_loop key starts index i (c ∷ s) =
    let hit = is_key key (c ∷ s) && starts in
    let rest = value_loop key (c == separator) (if hit then index - 1 else index) (suc i) s in
    if hit && index == 0 then some (read_value key i (c ∷ s)) else rest

unfoldable pub search : (config : List ℕ) (index : ℕ) (key : List ℕ) → Option Found
search config index key = value_loop key true index 0 config

-- `config`, or the whole file where that is NULL.
unfoldable pub chosen : Config → Option (List ℕ) → Option (List ℕ)
chosen st config =
    if not st.config_ready then none else elim config [ some c ↦ some c | none ↦ st.config_addr ]

abbrev pub found_value : Option Found → Option (List ℕ)
found_value none = none
found_value (some f) = some f.value

unfoldable pub config_get_value :
    Config → (config : Option (List ℕ)) (index : ℕ) (key : List ℕ) → Option (List ℕ)
config_get_value st config index key = elim (chosen st config) [
  | none ↦ none
  | some c ↦ found_value (search c index key)
]

pub record ConfTuple : Type 0 where
  pub value1 : Option (List ℕ)
  pub value2 : Option (List ℕ)

-- `lastkey` behind a call, which a call that finds nothing leaves.
abbrev pub lastkey : (base text_before : ℕ) → Option Found → ℕ
lastkey base text_before none = text_before
lastkey base text_before (some f) = base + f.at

abbrev pub is_found : Option Found → Bool
is_found none = false
is_found (some f) = true

-- Once the first value is found: the second is looked for behind it, and dropped where the next value
-- of the first key stands before it.
unfoldable pub tuple_of : (config : List ℕ) (index : ℕ) (key1 key2 : List ℕ) → Found → ConfTuple
tuple_of config index key1 key2 first =
    let second = search (drop first.at config) 0 key2 in
    let lk2 = lastkey first.at first.at second in
    let next = search config (index + 1) key1 in
    let lk3 = lastkey 0 lk2 next in
    record {
      value1 = some first.value;
      value2 = if is_found second && is_found next && ltb lk3 lk2 then none else found_value second;
    }

unfoldable pub config_get_tuple :
    Config → (config : Option (List ℕ)) (index : ℕ) (key1 key2 : List ℕ) → ConfTuple
config_get_tuple st config index key1 key2 = elim (chosen st config) [
  | none ↦ record { value1 = none; value2 = none }
  | some c ↦ elim (search c index key1) [
    | none ↦ record { value1 = none; value2 = none }
    | some first ↦ tuple_of c index key1 key2 first
  ]
]
