-- ===== src/Config/Built.antt =====
-- create_menu_tree() of common/lib/config.c against the outline that a configuration spells.
use mathlib.Core.List.{append_assoc, append-nil}
use limine_eucleia.Prelude.{
  ℕ, zero, suc, ◌+◌, ◌-◌, ◌≤◌, ◌<◌, ◌≡◌, ◌∙◌, ap, sym, refl, Bool, true, false, ◌&&◌, some, List,
  [], ◌∷◌, ◌++◌, arith, ltb, length, length-append, get_elem?-none, get_elem?-drop, get_elem?-past,
  drop-suc, drop, get_elem?, ok, panic, ◌>>=◌,
}
use limine_eucleia.Config.Value.{Config, config_get_value}
use limine_eucleia.Config.Lines.{lines, values, OneLine}
use limine_eucleia.Config.Lookup.{config_get_value-lines}
use limine_eucleia.Config.Nesting.{text_size, find_entry-past}
use limine_eucleia.Config.Entry.{config_get_entry_name, config_get_entry}
use limine_eucleia.Config.Sections.{
  Section, sections, section_of, find_entry-sections, name_of, Ready,
  config_get_entry_name-sections, config_get_entry-sections,
}
use limine_eucleia.Config.Tree.{
  Child, not_child, direct_child, indirect_child, is_child, child_named, child_of, is_directory,
  directory_of, MenuEntry, null, entry, max_menu_nesting, text_or_empty, Build, entry_with,
  new_menu_entry, at_child, step, entries_from, create_menu_tree, is_expanded, comment_key,
}
use limine_eucleia.Config.Outline.{
  Outline, done, item, is_menu, line_of, outline, Title, Spelled, AtDepth, menu_of, child-direct,
  child-deeper, line_of-AtDepth, is_expanded-line_of, label-line_of, Deeper, outline-Deeper, Stops,
  outline-Stops,
}

Spelled-levels : (n : ℕ) (o : Outline) → Spelled n o → is_menu o ≡ true → 0 < n
Spelled-levels n done l m = cc
Spelled-levels zero (item t x b sub next) l m = absurd l
Spelled-levels (suc n) (item t x b sub next) l m = omega arith

AtDepth-length : (d : ℕ) (s : List ℕ) → AtDepth (suc d) s → 1 < length s
AtDepth-length d [] h = absurd h
AtDepth-length d (c ∷ []) h = absurd h.1
AtDepth-length d (c ∷ e ∷ s) h = omega arith

comment_key-OneLine : OneLine comment_key
comment_key-OneLine =
    (λ e. cc, (λ e. cc, (λ e. cc, (λ e. cc, (λ e. cc, (λ e. cc, (λ e. cc, tt)))))))

module _ (st : Config) (s : List ℕ) (r : Ready st s) where
  abbrev behind : ℕ → List Section
  behind i = drop i (sections (lines s))

  name-at :
      (i : ℕ) (x : Section) (xs : List Section)
      → behind i ≡ x ∷ xs
      → config_get_entry_name st i ≡ some x.name
  name-at i x xs e =
      config_get_entry_name-sections st s i r
      ∙ ap name_of (get_elem?-drop i (sections (lines s)) x xs e)

  body-at :
      (i : ℕ) (x : Section) (xs : List Section)
      → behind i ≡ x ∷ xs
      → 1 < length x.name
      → config_get_entry st i ≡ some x.body
  body-at i x xs e l =
      config_get_entry-sections st s i x r (get_elem?-drop i (sections (lines s)) x xs e) l

  child-at :
      (d i : ℕ) (x : Section) (xs : List Section)
      → behind i ≡ x ∷ xs
      → is_child st d i ≡ child_of d x.name
  unfolding is_child
  child-at d i x xs e = ap (child_named d) (name-at i x xs e)

  Stops-is_child :
      (d i : ℕ) (xs : List Section) → behind i ≡ xs → Stops d xs → is_child st d i ≡ not_child
  unfolding is_child
  Stops-is_child d i [] e p = ap (child_named d) (
      config_get_entry_name-sections st s i r
      ∙ ap name_of (get_elem?-past i (sections (lines s)) e))
  Stops-is_child d i (x ∷ xs) e p = child-at d i x xs e ∙ p

  -- One turn of the loop.
  turn :
      (fuel d i : ℕ) (c : Child)
      → is_child st d i ≡ c
      → entries_from (suc fuel) st d i ≡ step st (entries_from fuel st) d i c
  unfolding entries_from
  turn fuel d i c e = ap (step st (entries_from fuel st) d i) e

  -- What lies deeper is passed over.
  skip-Deeper :
      (fuel d i : ℕ) (xs rest : List Section)
      → behind i ≡ xs ++ rest
      → Deeper d xs
      → entries_from (length xs + fuel) st d i ≡ entries_from fuel st d (length xs + i)
  skip-Deeper fuel d i [] rest e p =
      ap (λ f. entries_from f st d i) (omega arith)
      ∙ ap (λ j. entries_from fuel st d j) (omega arith)
  skip-Deeper fuel d i (x ∷ xs) rest e p =
      ap (λ f. entries_from f st d i) (omega arith)
      ∙ turn (length xs + fuel) d i indirect_child (child-at d i x (xs ++ rest) e ∙ p.0)
      ∙ skip-Deeper fuel d (suc i) xs rest (drop-suc i (sections (lines s)) x (xs ++ rest) e) p.1
      ∙ ap (λ j. entries_from fuel st d j) (omega arith)

  behind-skip :
      (i : ℕ) (xs rest : List Section) → behind i ≡ xs ++ rest → behind (length xs + i) ≡ rest
  behind-skip i [] rest e = ap behind (omega arith) ∙ e
  behind-skip i (x ∷ xs) rest e =
      ap behind (omega arith)
      ∙ behind-skip (suc i) xs rest (drop-suc i (sections (lines s)) x (xs ++ rest) e)

  entry_with-line :
      (d : ℕ) (t : List ℕ) (x m : Bool) (b : List ℕ) (sub' next' : MenuEntry)
      → Title t
      → (m && x) ≡ x
      → entry_with st d (line_of d x t) b m sub' next'
        ≡ entry t (get_elem? (values comment_key (lines b)) 0) sub' x b next'
  unfolding entry_with
  entry_with-line d t x m b sub' next' h e =
      ap
        (λ l.
          entry l (config_get_value st (some b) 0 comment_key) sub'
            (m && is_expanded d (line_of d x t)) b next')
        (label-line_of d x t h)
      ∙ ap (λ c. entry t c sub' (m && is_expanded d (line_of d x t)) b next')
          (config_get_value-lines st b 0 comment_key r.0 comment_key-OneLine)
      ∙ ap (λ y. entry t (get_elem? (values comment_key (lines b)) 0) sub' (m && y) b next')
          (is_expanded-line_of d x t h)
      ∙ ap (λ y. entry t (get_elem? (values comment_key (lines b)) 0) sub' y b next') e

  entry-at :
      (d i : ℕ) (t : List ℕ) (x m : Bool) (b : List ℕ) (xs : List Section) (sub' next' : MenuEntry)
      → behind i ≡ record { name = line_of (suc d) x t; body = b } ∷ xs
      → Title t
      → (m && x) ≡ x
      → new_menu_entry st (suc d) i m sub' next'
        ≡ entry t (get_elem? (values comment_key (lines b)) 0) sub' x b next'
  unfolding new_menu_entry
  entry-at d i t x m b xs sub' next' e h g =
      ap
        (λ o.
          entry_with st (suc d) (text_or_empty o) (text_or_empty (config_get_entry st i)) m sub'
            next')
        (name-at i (record { name = line_of (suc d) x t; body = b }) xs e)
      ∙ ap (λ o. entry_with st (suc d) (line_of (suc d) x t) (text_or_empty o) m sub' next')
          (body-at i (record { name = line_of (suc d) x t; body = b }) xs e
            (AtDepth-length d (line_of (suc d) x t) (line_of-AtDepth (suc d) x t h)))
      ∙ entry_with-line (suc d) t x m b sub' next' h g

  directory-at :
      (n d i : ℕ) (o : Outline) (rest : List Section)
      → behind (suc i) ≡ outline (suc d) o ++ rest
      → Spelled n o
      → Stops (suc d) rest
      → is_directory st d i ≡ ok (is_menu o)
  unfolding is_directory outline
  directory-at n d i done rest e l p = ap directory_of (Stops-is_child (suc d) (suc i) rest e p)
  directory-at zero d i (item t x b sub next) rest e l p = absurd l
  directory-at (suc n) d i (item t x b sub next) rest e l p = ap directory_of (
      child-at (suc d) (suc i) (record { name = line_of (suc d) x t; body = b })
        ((outline (suc (suc d)) sub ++ outline (suc d) next) ++ rest) e
      ∙ child-direct (suc d) (line_of (suc d) x t) (line_of-AtDepth (suc d) x t l.0))

  -- What a direct child comes to, given what is below and behind it.
  at_child-built :
      (build : Build) (d i : ℕ) (o : Outline) (next' : MenuEntry)
      → (is_menu o ≡ true
          → (ltb max_menu_nesting (suc d) ≡ false) × (build (suc d) (suc i) ≡ ok (menu_of o)))
      → build d (suc i) ≡ ok next'
      → at_child st build d i (is_menu o) ≡ ok (new_menu_entry st d i (is_menu o) (menu_of o) next')
  unfolding menu_of
  at_child-built build d i done next' h e =
      ap (λ y. y >>= λ z. ok (new_menu_entry st d i false null z)) e
  at_child-built build d i (item t x b sub next) next' h e =
      rw ((h refl).0, (h refl).1)
        (ap (λ y. y >>= λ z. ok (new_menu_entry st d i true (menu_of (item t x b sub next)) z)) e)

  -- The step at an item, given the recursive calls for what is below and behind it.
  item-built :
      (f d i n : ℕ) (t : List ℕ) (x : Bool) (b : List ℕ) (sub next : Outline) (rest : List Section)
      → behind i ≡ outline (suc d) (item t x b sub next) ++ rest
      → Spelled (suc n) (item t x b sub next)
      → suc n + suc d ≡ suc max_menu_nesting
      → is_directory st (suc d) i ≡ ok (is_menu sub)
      → (is_menu sub ≡ true → entries_from f st (suc (suc d)) (suc i) ≡ ok (menu_of sub))
      → entries_from f st (suc d) (suc i) ≡ ok (menu_of next)
      → entries_from (suc f) st (suc d) i ≡ ok (menu_of (item t x b sub next))
  unfolding outline menu_of
  item-built f d i n t x b sub next rest e l h g below behind' =
      let xs = (outline (suc (suc d)) sub ++ outline (suc d) next) ++ rest in
      turn f (suc d) i direct_child (
        child-at (suc d) i (record { name = line_of (suc d) x t; body = b }) xs e
        ∙ child-direct (suc d) (line_of (suc d) x t) (line_of-AtDepth (suc d) x t l.0))
      ∙ ap (λ y. y >>= at_child st (entries_from f st) (suc d) i) g
      ∙ at_child-built (entries_from f st) (suc d) i sub (menu_of next)
          (λ m. (ground (arith, h, Spelled-levels n sub l.2 m), below m)) behind'
      ∙ ap ok (entry-at d i t x (is_menu sub) b xs (menu_of sub) (menu_of next) e l.0 l.1)

  built :
      (fuel d i n : ℕ) (o : Outline) (rest : List Section)
      → behind i ≡ outline (suc d) o ++ rest
      → Spelled n o
      → n + suc d ≡ suc max_menu_nesting
      → ((e : ℕ) → d < e → Stops e rest)
      → length (outline (suc d) o) < fuel
      → entries_from fuel st (suc d) i ≡ ok (menu_of o)
  unfolding outline menu_of
  built zero d i n o rest e l h p f = absurd (omega (arith, f))
  built (suc fuel) d i n done rest e l h p f =
      turn fuel (suc d) i not_child (Stops-is_child (suc d) i rest e (p (suc d) (omega arith)))
  built (suc fuel) d i zero (item t x b sub next) rest e l h p f = absurd l
  built (suc fuel) d i (suc n) (item t x b sub next) rest e l h p f =
      let xs = outline (suc (suc d)) sub in
      let ys = outline (suc d) next in
      let first : Section = record { name = line_of (suc d) x t; body = b } in
      let total = length-append xs ys in
      let e' =
        drop-suc i (sections (lines s)) first ((xs ++ ys) ++ rest) e ∙ append_assoc xs ys rest in
      let stops : (k : ℕ) → suc d < k → Stops k (ys ++ rest) =
        λ k q. outline-Stops (suc n) (suc d) k next rest l.3 q (p k (omega (arith, q))) in
      item-built fuel d i n t x b sub next rest e l h
        (directory-at n (suc d) i sub (ys ++ rest) e' l.2 (stops (suc (suc d)) (omega arith)))
        (λ m.
          built fuel (suc d) (suc i) n sub (ys ++ rest) e' l.2 (omega (arith, h)) stops
            (omega (arith, f, total)))
        (ap (λ k. entries_from k st (suc d) (suc i)) (omega (arith, f, total))
          ∙ skip-Deeper (fuel - length xs) (suc d) (suc i) xs (ys ++ rest) e'
              (outline-Deeper n (suc d) (suc (suc d)) sub l.2 (omega arith))
          ∙ built (fuel - length xs) d (length xs + suc i) (suc n) next rest
              (behind-skip (suc i) xs (ys ++ rest) e') l.3 h p (omega (arith, f, total)))

  sections-length : length (sections (lines s)) ≤ length s
  sections-length = get_elem?-none (sections (lines s)) (length s) (
      sym (find_entry-sections true (length s) s)
      ∙ ap section_of (find_entry-past true (length s) s (omega arith)))

  text_size-length : text_size st ≡ length s
  text_size-length = rw (r.0, r.1) refl

  -- Where a configuration is ready and its sections spell an outline of at most 64 levels,
  -- create_menu_tree() at depth 1 and index 0, with fuel for the size of the text, returns the
  -- menu of the outline: each item with its title, comment and body, whether it is expanded, and
  -- the menu below it.
  pub create_menu_tree-menu_of :
      (o : Outline)
      → Spelled max_menu_nesting o
      → sections (lines s) ≡ outline 1 o
      → create_menu_tree (suc (text_size st)) st 1 0 ≡ ok (menu_of o)
  unfolding create_menu_tree
  create_menu_tree-menu_of o l e =
      built (suc (text_size st)) 0 0 max_menu_nesting o [] (e ∙ sym (append-nil (outline 1 o))) l
        refl (λ k q. tt) (omega (arith, sections-length, text_size-length, ap length e))

  -- In a ready configuration whose first entry is at depth 1 and whose second is at depth 3 or
  -- more, create_menu_tree() at depth 1 and index 0 panics.
  pub create_menu_tree-parentless :
      (x y : Section) (rest : List Section) (e : ℕ)
      → sections (lines s) ≡ x ∷ y ∷ rest
      → AtDepth 1 x.name
      → AtDepth e y.name
      → 2 < e
      → create_menu_tree (suc (text_size st)) st 1 0 ≡ panic
  unfolding create_menu_tree is_directory
  create_menu_tree-parentless x y rest e h p q l =
      turn (text_size st) 1 0 direct_child (child-at 1 0 x (y ∷ rest) h ∙ child-direct 1 x.name p)
      ∙ ap (λ c. directory_of c >>= at_child st (entries_from (text_size st) st) 1 0)
          (child-at 2 1 y rest (drop-suc 0 (sections (lines s)) x (y ∷ rest) h)
            ∙ child-deeper 2 e y.name q l)
