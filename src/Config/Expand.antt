-- ===== src/Config/Expand.antt =====
-- The expansion of macros in init_config() of common/lib/config.c, and its buffer.
use limine_eucleia.Prelude.{
  ℕ, zero, suc, ◌-◌, ◌*◌, Bool, true, false, not, Option, none, some, List, [], ◌∷◌, ◌++◌, ltb,
  ◌==◌, if◌then◌else◌, length, take, drop, get_or, Result, ok, panic, out_of_fuel, ◌>>=◌,
}
use limine_eucleia.Config.Macro.{
  Macro, max_name, is_usage, opening, ends_value, ends_name, text_before, text_from, macro_value,
}

abbrev pub is_close : ℕ → Bool
is_close c = c == b'}'

abbrev pub value_end : List ℕ → Result (Option (List ℕ))
value_end [] = panic
value_end (c ∷ s) = ok (some (c ∷ s))

-- What follows a definition, given the text from its closing brace on; `none` where it is a usage.
abbrev pub definition_end : List ℕ → Result (Option (List ℕ))
definition_end [] = panic
definition_end (c ∷ s) =
    if get_or s 0 0 == b'=' then value_end (text_from ends_value (drop 1 s)) else ok none

abbrev pub Expand : Type 0
Expand = (room : ℕ) → List ℕ → Result (List ℕ)

abbrev pub expand_usage : Expand → List Macro → (room : ℕ) → (text : List ℕ) → Result (List ℕ)
expand_usage again macros room text =
    let name = take max_name (text_before ends_name text) in
    let rest = drop (length name) text in
    let value = macro_value macros name in
    if not (is_close (get_or rest 0 0))
    then panic
    else if ltb room (length value)
    then panic
    else again (room - length value) (drop 1 rest) >>= λ out. ok (value ++ out)

abbrev pub copy_one : Expand → (room : ℕ) → (c : ℕ) → List ℕ → Result (List ℕ)
copy_one again zero c s = panic
copy_one again (suc room) c s = again room s >>= λ out. ok (c ∷ out)

-- From the label `next` on.
abbrev pub expand_next :
    Expand → List Macro → (room : ℕ) → (c : ℕ) → List ℕ → (usage : Bool) → Result (List ℕ)
expand_next again macros room c s true = expand_usage again macros room (drop 1 s)
expand_next again macros room c s false = copy_one again room c s

abbrev pub expand_behind :
    Expand → List Macro → (room : ℕ) → (c : ℕ) → List ℕ → Option (List ℕ) → Result (List ℕ)
expand_behind again macros room c s none = expand_next again macros room c s (is_usage (c ∷ s))
expand_behind again macros room c s (some rest) = again room rest

-- One place of the loop, given the length of what may open a definition there.
abbrev pub expand_step :
    Expand → List Macro → (room : ℕ) → (c : ℕ) → List ℕ → (opening : ℕ) → Result (List ℕ)
expand_step again macros room c s zero = expand_next again macros room c s (is_usage (c ∷ s))
expand_step again macros room c s (suc k) =
    definition_end (text_from is_close (drop k s)) >>= expand_behind again macros room c s

-- The loop, where `room` is what the new buffer still holds.
unfoldable pub expand_loop : (fuel : ℕ) (first : Bool) → List Macro → Expand
expand_loop zero first macros room s = out_of_fuel
expand_loop (suc fuel) first macros room [] = ok []
expand_loop (suc fuel) first macros room (c ∷ s) =
    expand_step (expand_loop fuel false macros) macros room c s (opening first (c ∷ s))

-- The requests for the buffer and the names are taken to be granted; init_config() asks first.
unfoldable pub expand_macros : List Macro → (config : List ℕ) → Result (List ℕ)
expand_macros macros config =
    expand_loop (suc (length config)) true macros (length config * 4) config
