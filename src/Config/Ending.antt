-- ===== src/Config/Ending.antt =====
-- The end of init_config() of common/lib/config.c, whatever the file.
use limine_eucleia.Prelude.{
  ℕ, zero, suc, ◌+◌, ◌*◌, ◌≤◌, ◌<◌, Bool, true, false, not, ◌&&◌, Option, none, some, List, [], ◌∷◌,
  arith, ltb, ◌==◌, if◌then◌else◌, length, drop, get_or, Result, ok, panic, ◌>>=◌, Ends, Ends_mono,
  Ends-bind, Ends-if, Ends_of_Returns,
}
use limine_eucleia.Text.Chars.{digit_to_int}
use limine_eucleia.Config.Tree.{max_menu_nesting, create_menu_tree}
use limine_eucleia.Config.Nesting.{NestsWithin, create_menu_tree-NestsWithin}
use limine_eucleia.Config.Macro.{
  Macro, max_name, max_macro_value, opening, ends_value, ends_name, text_before, text_from, Load,
  load_value, load_step, load_loop, load_macros,
}
use limine_eucleia.Config.Expand.{expand_macros}
use limine_eucleia.Config.Strip.{Stripped, strip, strip-Stripped}
use limine_eucleia.Config.Room.{length-text_from, length-drop, expand_macros-length}
use limine_eucleia.Config.Init.{
  digit_pair, hash_bytes, same_bytes, no_sum, check_sum, text_of, cut_config, Platform, built_in,
  Booted, max_config, ready, Memory, finish_init, buffer, expand_into, expanded, passed,
  init_config,
}

-- A run that ends, whatever its value.
abbrev Anything {ℓ} : {A : Type ℓ} → A → Type 0
Anything a = Unit

-- The loop ends on the texts that are no longer than this one.
abbrev Loads : Load → List ℕ → Type 0
Loads again s =
    (macros : List Macro) (t : List ℕ) → length t ≤ length s → Ends (again macros t) Anything

load_value-ends :
    (again : Load) (macros : List Macro) (s name rest : List ℕ) (b : Bool)
    → Loads again s
    → length rest ≤ length s
    → Ends (load_value again macros name rest b) Anything
load_value-ends again macros s name rest false h l = h macros rest l
load_value-ends again macros s name rest true h l =
    let text = drop 2 rest in
    let value = text_before ends_value text in
    let more = record { name = name; value = value } ∷ macros in
    Ends-if (ltb max_macro_value (length value)) panic (again more (text_from ends_value text))
      Anything (λ q. tt)
      (λ q.
        h more (text_from ends_value text)
          (omega (arith, l, length-text_from ends_value text, length-drop 2 rest)))

load_step-ends :
    (again : Load) (macros : List Macro) (c : ℕ) (s : List ℕ) (k : ℕ)
    → Loads again s
    → Ends (load_step again macros c s k) Anything
load_step-ends again macros c s zero h = h macros s (omega arith)
load_step-ends again macros c s (suc k) h =
    let name = text_before ends_name (drop k s) in
    let rest = text_from ends_name (drop k s) in
    let defines = not (ends_value (get_or rest 0 0)) && get_or rest 1 0 == b'=' in
    Ends-if (ltb max_name (length name)) panic (load_value again macros name rest defines) Anything
      (λ q. tt)
      (λ q.
        load_value-ends again macros s name rest defines h
          (omega (arith, length-text_from ends_name (drop k s), length-drop k s)))

load_loop-ends :
    (fuel : ℕ) (first : Bool) (macros : List Macro) (s : List ℕ)
    → length s < fuel
    → Ends (load_loop fuel first macros s) Anything
unfolding load_loop
load_loop-ends zero first macros s h = absurd (omega (arith, h))
load_loop-ends (suc fuel) first macros [] h = tt
load_loop-ends (suc fuel) first macros (c ∷ s) h =
    load_step-ends (load_loop fuel false) macros c s (opening first (c ∷ s))
      (λ ms t l. load_loop-ends fuel false ms t (omega (arith, h, l)))

load_macros-ends : (macros : List Macro) (s : List ℕ) → Ends (load_macros macros s) Anything
unfolding load_macros
load_macros-ends macros s = load_loop-ends (suc (length s)) true macros s (omega arith)

digit_pair-ends :
    (a b : Option ℕ) (r : Result (List ℕ)) → Ends r Anything → Ends (digit_pair a b r) Anything
digit_pair-ends none b r h = tt
digit_pair-ends (some x) none r h = tt
digit_pair-ends (some x) (some y) r h =
    Ends-bind r (λ out. ok ((x * 16 + y) ∷ out)) Anything Anything h (λ out p. tt)

pub hash_bytes-ends : (s : List ℕ) → Ends (hash_bytes s) Anything
unfolding hash_bytes
hash_bytes-ends [] = tt
hash_bytes-ends (c ∷ []) = tt
hash_bytes-ends (c ∷ d ∷ s) =
    digit_pair-ends (digit_to_int c) (digit_to_int d) (hash_bytes s) (hash_bytes-ends s)

check_sum-ends :
    (blake2b : List ℕ → List ℕ) (config_b2sum file : List ℕ)
    → Ends (check_sum blake2b config_b2sum file) Anything
unfolding check_sum
check_sum-ends blake2b config_b2sum file =
    Ends-if (same_bytes config_b2sum no_sum) (ok false)
      (hash_bytes config_b2sum >>= λ hash.
        if same_bytes hash (blake2b file) then ok true else panic)
      Anything (λ q. tt)
      (λ q.
        Ends-bind (hash_bytes config_b2sum)
          (λ hash. if same_bytes hash (blake2b file) then ok true else panic) Anything Anything
          (hash_bytes-ends config_b2sum)
          (λ hash p.
            Ends-if (same_bytes hash (blake2b file)) (ok true) panic Anything (λ q. tt) (λ q. tt)))

expand_into-ends :
    (m : Memory) (s : List ℕ) (macros : List Macro) → Ends (expand_into m s macros) Anything
expand_into-ends m s macros =
    let all = m.new_config (length s * 4) && m.names in
    Ends-if (ltb max_config (length s)) panic (if all then expand_macros macros s else panic)
      Anything (λ t. tt)
      (λ t.
        Ends-if all (expand_macros macros s) panic Anything
          (λ q.
            Ends_mono (expand_macros macros s) (λ out. length out ≤ length s * 4) Anything
              (λ out l. tt) (expand_macros-length macros s))
          (λ q. tt))

expanded-ends : (m : Memory) (p : Platform) (s : List ℕ) → Ends (expanded m p s) Anything
unfolding expanded
expanded-ends m p s =
    let loaded = load_macros (built_in p) s in
    Ends-bind (if m.macros then loaded else panic) (expand_into m s) Anything Anything
      (Ends-if (m.macros) loaded panic Anything (λ q. load_macros-ends (built_in p) s) (λ q. tt))
      (λ macros q. expand_into-ends m s macros)

pub passed-ends : (m : Memory) (p : Platform) (file : List ℕ) → Ends (passed m p file) (λ s. Unit)
passed-ends m p file =
    let s = buffer file in
    Ends-if (m.raw_config (length file)) (strip s >>= expanded m p) panic Anything
      (λ q.
        Ends-bind (strip s) (expanded m p) (Stripped true) Anything
          (Ends_of_Returns (strip s) (Stripped true) (strip-Stripped s))
          (λ t h. expanded-ends m p t))
      (λ q. tt)

abbrev pub Nested : Booted → Type 0
Nested b = NestsWithin max_menu_nesting b.menu_tree

pub menu-ends :
    (m : Memory) (s : List ℕ)
    → Ends
        (if m.menu then create_menu_tree (suc (length s)) (ready s) 1 0 else panic)
        (NestsWithin max_menu_nesting)
menu-ends m s =
    Ends-if (m.menu) (create_menu_tree (suc (length s)) (ready s) 1 0) panic
      (NestsWithin max_menu_nesting) (λ q. create_menu_tree-NestsWithin (ready s)) (λ q. tt)

finish_init-ends :
    (m : Memory) (editor secure checked : Bool) (s : List ℕ)
    → Ends (finish_init m editor secure checked s) Nested
unfolding finish_init
finish_init-ends m editor secure checked s =
    Ends-bind (if m.menu then create_menu_tree (suc (length s)) (ready s) 1 0 else panic)
      (λ tree. ok (record {
        config = ready (cut_config s);
        menu_tree = tree;
        editor_enabled = if checked then false else editor;
        secure_boot_active = if checked then secure else false;
      }))
      (NestsWithin max_menu_nesting) Nested (menu-ends m s) (λ tree h. h)

-- On every file, checksum, hash function and platform, and whichever requests for memory are
-- granted, init_config() comes to an end, by a panic or with a menu of at most 64 levels.
pub init_config-Nested :
    (m : Memory) (blake2b : List ℕ → List ℕ) (p : Platform) (config_b2sum : List ℕ)
    (editor secure : Bool) (file : List ℕ)
    → Ends (init_config m blake2b p config_b2sum editor secure file) Nested
unfolding init_config
init_config-Nested m blake2b p config_b2sum editor secure file =
    Ends-bind (check_sum blake2b config_b2sum file)
      (λ checked. passed m p file >>= λ s. finish_init m editor secure checked (text_of s)) Anything
      Nested (check_sum-ends blake2b config_b2sum file)
      (λ checked q.
        Ends-bind (passed m p file) (λ s. finish_init m editor secure checked (text_of s)) Anything
          Nested (passed-ends m p file)
          (λ s t. finish_init-ends m editor secure checked (text_of s)))
