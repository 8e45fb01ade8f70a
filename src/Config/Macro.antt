-- ===== src/Config/Macro.antt =====
-- The macros of init_config() of common/lib/config.c: how they are read and expanded.
use limine_eucleia.Prelude.{
  ℕ, zero, suc, Bool, true, false, not, ◌&&◌, ◌||◌, List, [], ◌∷◌, ltb, leb, ◌==◌, if◌then◌else◌,
  length, drop, get_or, Result, ok, panic, out_of_fuel,
}
use limine_eucleia.Config.Value.{separator}
use limine_eucleia.Text.Strings.{strcmp}
use Prim.Native.Nat.{Ordering, eq}

-- `struct macro`; a list stands for the chain that begins at `macros`.
pub record Macro : Type 0 where
  pub name : List ℕ
  pub value : List ℕ

abbrev pub max_name : ℕ
max_name = 1023

abbrev pub max_macro_value : ℕ
max_macro_value = 2047

-- `memcmp(config_addr + i, "${", 2) == 0`, within the text.
abbrev pub is_usage : List ℕ → Bool
is_usage s = leb 2 (length s) && get_or s 0 0 == b'$' && get_or s 1 0 == b'{'

-- How many characters the code passes over where a line begins with "${", and 0 elsewhere; the flag
-- tells whether this is the start of the text. Behind a separator these are three, but at the start of
-- the text they are two, also where the text begins with a separator.
unfoldable pub opening : (first : Bool) → List ℕ → ℕ
opening first s =
    if leb 3 (length s) && get_or s 0 0 == separator && is_usage (drop 1 s)
    then if first then 2 else 3
    else if first && is_usage s
    then 2
    else 0

abbrev pub ends_value : ℕ → Bool
ends_value c = c == separator || c == 0

abbrev pub ends_name : ℕ → Bool
ends_name c = c == b'}' || ends_value c

-- The characters before the first that the test holds of, and what follows them.
unfoldable pub text_before : (ℕ → Bool) → List ℕ → List ℕ
text_before stop [] = []
text_before stop (c ∷ s) = if stop c then [] else c ∷ text_before stop s

unfoldable pub text_from : (ℕ → Bool) → List ℕ → List ℕ
text_from stop [] = []
text_from stop (c ∷ s) = if stop c then c ∷ s else text_from stop s

abbrev pub Load : Type 0
Load = (macros : List Macro) → List ℕ → Result (List Macro)

-- Once the name is read: a value follows, or this is no definition.
abbrev pub load_value :
    Load → List Macro → (name rest : List ℕ) → (defines : Bool) → Result (List Macro)
load_value again macros name rest false = again macros rest
load_value again macros name rest true =
    let text = drop 2 rest in
    let value = text_before ends_value text in
    if ltb max_macro_value (length value)
    then panic
    else again (record { name = name; value = value } ∷ macros) (text_from ends_value text)

abbrev pub load_name : Load → List Macro → List ℕ → Result (List Macro)
load_name again macros s =
    let name = text_before ends_name s in
    let rest = text_from ends_name s in
    if ltb max_name (length name)
    then panic
    else load_value again macros name rest
        (not (ends_value (get_or rest 0 0)) && get_or rest 1 0 == b'=')

abbrev pub load_step : Load → List Macro → (c : ℕ) → List ℕ → (opening : ℕ) → Result (List Macro)
load_step again macros c s zero = again macros s
load_step again macros c s (suc k) = load_name again macros (drop k s)

unfoldable pub load_loop : (fuel : ℕ) (first : Bool) → Load
load_loop zero first macros s = out_of_fuel
load_loop (suc fuel) first macros [] = ok macros
load_loop (suc fuel) first macros (c ∷ s) =
    load_step (load_loop fuel false) macros c s (opening first (c ∷ s))

-- The request for a macro at each opening is taken to be granted; init_config() asks first.
unfoldable pub load_macros : (built_in : List Macro) (config : List ℕ) → Result (List Macro)
load_macros built_in config = load_loop (suc (length config)) true built_in config

abbrev pub equal : Ordering → Bool
equal eq = true
equal o = false

-- The value of the first macro of the name, which is empty where there is none.
unfoldable pub macro_value : List Macro → (name : List ℕ) → List ℕ
macro_value [] name = []
macro_value (m ∷ ms) name =
    let rest = macro_value ms name in if equal (strcmp m.name name) then m.value else rest
