-- ===== src/Config/Nesting.antt =====
-- The end of create_menu_tree() of common/lib/config.c, and the depth of what it builds.
use limine_eucleia.Prelude.{
  ℕ, zero, suc, ◌+◌, ◌≤◌, ◌<◌, ◌≡◌, ◌∙◌, ap, refl, Bool, true, false, Option, none, some, List, [],
  ◌∷◌, arith, ltb, leb, leb→le, ◌==◌, if◌then◌else◌, length, Bool-cases, inl, inr, and-false,
  and-true, Result, ok, panic, ◌>>=◌, Ends, Ends-bind, Ends-if,
}
use limine_eucleia.Config.Value.{Config, separator}
use limine_eucleia.Config.Entry.{is_slash, find_entry, loaded, config_get_entry_name, entry_name}
use limine_eucleia.Config.Sections.{find-skip, find-miss}
use limine_eucleia.Config.Tree.{
  Child, not_child, direct_child, indirect_child, is_child, child_named, is_directory, directory_of,
  MenuEntry, null, entry, max_menu_nesting, text_or_empty, Build, new_menu_entry, entry_with,
  at_child, step, entries_from, create_menu_tree,
}

pub find_entry-past : (b : Bool) (n : ℕ) (s : List ℕ) → length s ≤ n → find_entry b n s ≡ none
unfolding find_entry
find_entry-past b n [] h = refl
find_entry-past b zero (c ∷ s) h = absurd (omega (arith, h))
find_entry-past false (suc n) (c ∷ s) h =
    find-miss false (suc n) c s (and-false (is_slash c))
    ∙ find_entry-past (c == separator) (suc n) s (omega (arith, h))
find_entry-past true (suc n) (c ∷ s) h = elim (Bool-cases (is_slash c)) [
  | inl q ↦ find-skip n c s q ∙ find_entry-past (c == separator) n s (omega (arith, h))
  | inr q ↦
      find-miss true (suc n) c s (and-true (is_slash c) ∙ q)
      ∙ find_entry-past (c == separator) (suc n) s (omega (arith, h))
]

-- Enough fuel for a configuration.
abbrev pub text_size : Config → ℕ
text_size st = length (text_or_empty (loaded st))

name-past :
    (o : Option (List ℕ)) (n : ℕ)
    → length (text_or_empty o) ≤ n
    → (elim o [ none ↦ none | some s ↦ entry_name (find_entry true n s) ]) ≡ none
name-past none n h = refl
name-past (some s) n h = ap entry_name (find_entry-past true n s h)

is_child-past : (st : Config) (d i : ℕ) → text_size st ≤ i → is_child st d i ≡ not_child
unfolding is_child config_get_entry_name
is_child-past st d i h = ap (child_named d) (name-past (loaded st) i h)

-- No more than this many levels.
abbrev pub NestsWithin : ℕ → MenuEntry → Type 0
NestsWithin n null = Unit
NestsWithin zero (entry name comment sub expanded body next) = ⊥
NestsWithin (suc n) (entry name comment sub expanded body next) =
    NestsWithin n sub × NestsWithin (suc n) next

module _ (st : Config) where
  -- What the recursive calls are to satisfy.
  abbrev Builds : (i : ℕ) → Build → Type 0
  Builds i build =
      (d n : ℕ)
      → n + d ≡ suc max_menu_nesting
      → d ≤ max_menu_nesting
      → Ends (build d (suc i)) (NestsWithin n)

  at_child-ends :
      (build : Build) (d i n : ℕ) (b : Bool)
      → Builds i build
      → suc n + d ≡ suc max_menu_nesting
      → Ends (at_child st build d i b) (NestsWithin (suc n))
  unfolding new_menu_entry entry_with
  at_child-ends build d i n false h e =
      Ends-bind (build d (suc i)) (λ next. ok (new_menu_entry st d i false null next))
        (NestsWithin (suc n)) (NestsWithin (suc n)) (h d (suc n) e (omega (arith, e)))
        (λ next p. (tt, p))
  at_child-ends build d i n true h e =
      Ends-bind (if ltb max_menu_nesting (suc d) then panic else build (suc d) (suc i))
        (λ sub. build d (suc i) >>= λ next. ok (new_menu_entry st d i true sub next))
        (NestsWithin n) (NestsWithin (suc n))
        (Ends-if (ltb max_menu_nesting (suc d)) panic (build (suc d) (suc i)) (NestsWithin n)
          (λ q. tt) (λ q. h (suc d) n (omega (arith, e)) (ground (arith, q))))
        (λ sub p.
          Ends-bind (build d (suc i)) (λ next. ok (new_menu_entry st d i true sub next))
            (NestsWithin (suc n)) (NestsWithin (suc n)) (h d (suc n) e (omega (arith, e)))
            (λ next q. (p, q)))

  directory-ends :
      (build : Build) (d i n : ℕ) (r : Result Bool)
      → Ends r (λ _. Unit)
      → Builds i build
      → suc n + d ≡ suc max_menu_nesting
      → Ends (r >>= at_child st build d i) (NestsWithin (suc n))
  directory-ends build d i n r p h e =
      Ends-bind r (at_child st build d i) (λ _. Unit) (NestsWithin (suc n)) p
        (λ b _. at_child-ends build d i n b h e)

  is_directory-ends : (d i : ℕ) (c : Child) → Ends (directory_of c) (λ _. Unit)
  is_directory-ends d i not_child = tt
  is_directory-ends d i direct_child = tt
  is_directory-ends d i indirect_child = tt

  step-ends :
      (build : Build) (d i n : ℕ) (c : Child)
      → Builds i build
      → d ≤ max_menu_nesting
      → suc n + d ≡ suc max_menu_nesting
      → Ends (step st build d i c) (NestsWithin (suc n))
  unfolding is_directory
  step-ends build d i n not_child h l e = tt
  step-ends build d i n indirect_child h l e = h d (suc n) e l
  step-ends build d i n direct_child h l e =
      directory-ends build d i n (is_directory st d i)
        (is_directory-ends d i (is_child st (suc d) (suc i))) h e

  step-past :
      (build : Build) (d i n : ℕ)
      → text_size st ≤ i
      → Ends (step st build d i (is_child st d i)) (NestsWithin n)
  step-past build d i n h = rw (is_child-past st d i h) tt

  entries_from-ends :
      (fuel d i n : ℕ)
      → text_size st < fuel + i
      → i ≤ text_size st
      → d ≤ max_menu_nesting
      → n + d ≡ suc max_menu_nesting
      → Ends (entries_from fuel st d i) (NestsWithin n)
  unfolding entries_from
  entries_from-ends zero d i n f l h e = absurd (omega (arith, f, l))
  entries_from-ends (suc fuel) d i zero f l h e = absurd (omega (arith, h, e))
  entries_from-ends (suc fuel) d i (suc n) f l h e = elim (Bool-cases (leb (text_size st) i)) [
    | inl q ↦ step-past (entries_from fuel st) d i (suc n) (leb→le (text_size st) i q)
    | inr q ↦
        step-ends (entries_from fuel st) d i n (is_child st d i)
          (λ d' n' e' h'.
            entries_from-ends fuel d' (suc i) n' (omega (arith, f)) (ground (arith, q)) h' e')
          h e
  ]

  -- The build of the menu ends with a menu of at most MAX_MENU_NESTING levels, or in a panic, and the
  -- size of the text is enough fuel.
  pub create_menu_tree-NestsWithin :
      Ends (create_menu_tree (suc (text_size st)) st 1 0) (NestsWithin max_menu_nesting)
  unfolding create_menu_tree
  create_menu_tree-NestsWithin =
      entries_from-ends (suc (text_size st)) 1 0 max_menu_nesting (omega arith) (omega arith)
        (omega arith) refl
