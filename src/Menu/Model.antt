-- ===== src/Menu/Model.antt =====
-- menu_model_count(), project_tree(), menu_model_update() and menu_model_entry() of
-- common/menu_model.c, and the structures that they read and write.
use limine_eucleia.Prelude.{
  ℕ, ◌+◌, ◌-◌, ◌^◌, Bool, true, false, not, ◌&&◌, Option, none, some, List, [], ◌∷◌, ◌++◌, ltb,
  ◌==◌, if◌then◌else◌, length, get_elem?, set,
}

-- `struct menu_entry *`: `null`, or an entry with the members that the projection reads, where `sub`
-- and `next` are pointers again.
pub data MenuEntry : Type 0 where
  null : MenuEntry
  entry : (name : List ℕ) (expanded : Bool) (sub next : MenuEntry) → MenuEntry

-- `struct menu_row`.
pub record MenuRow : Type 0 where
  pub name : List ℕ
  pub parent : ℕ
  pub depth : ℕ
  pub duplicate : ℕ
  pub directory : Bool
  pub expanded : Bool
  pub has_next_sibling : Bool

-- `struct menu_model`, with its arrays as lists.
pub record MenuModel : Type 0 where
  pub rows : List MenuRow
  pub entries : List MenuEntry
  pub count : ℕ

-- SIZE_MAX.
abbrev pub no_parent : ℕ
no_parent = 2 ^ 64 - 1

abbrev pub not_null : MenuEntry → Bool
not_null null = false
not_null (entry name expanded sub next) = true

-- `strcmp(a, b) == 0`, on the characters before the terminator.
unfoldable pub same_name : List ℕ → List ℕ → Bool
same_name [] [] = true
same_name [] (c ∷ b) = false
same_name (c ∷ a) [] = false
same_name (c ∷ a) (d ∷ b) = (c == d) && same_name a b

-- `model->entries[current] = …; model->rows[current] = …`; `none` is a write outside an array.
unfoldable pub write_row : (current : ℕ) → MenuEntry → MenuRow → MenuModel → Option MenuModel
write_row current e r m =
    if ltb current (length m.entries) && ltb current (length m.rows)
    then some (record m { rows = set m.rows current r; entries = set m.entries current e })
    else none

-- The model, and `*index`.
abbrev pub Progress : Type 0
Progress = MenuModel × ℕ

infixl 5 ◌>>?◌
abbrev pub ◌>>?◌ : Option Progress → (Progress → Option Progress) → Option Progress
none >>? f = none
some s >>? f = f s

-- The callback that hides an entry.
module _ (skip : MenuEntry → Bool) where
  unfoldable pub count : MenuEntry → ℕ
  count null = 0
  count (entry name expanded sub next) =
      if skip (entry name expanded sub next)
      then count next
      else (if not_null sub && expanded then 1 + count sub else 1) + count next

  -- The loop over the entries from the head of the list to the entry, which come as a list.
  unfoldable pub duplicates : (priors : List MenuEntry) (name : List ℕ) → ℕ
  duplicates [] name = 0
  duplicates (null ∷ priors) name = duplicates priors name
  duplicates (entry n e s t ∷ priors) name =
      (if not (skip (entry n e s t)) && same_name n name then 1 else 0) + duplicates priors name

  -- The row that the body of the loop writes for an entry that is not skipped.
  unfoldable pub row :
      (priors : List MenuEntry) (name : List ℕ) (expanded : Bool) (sub next : MenuEntry)
      (parent depth : ℕ)
      → MenuRow
  row priors name expanded sub next parent depth = record {
    name = name;
    parent = parent;
    depth = depth;
    duplicate = duplicates priors name;
    directory = not_null sub;
    expanded = expanded;
    has_next_sibling = not_null next;
  }

  -- The loop at an entry, after the entries `priors` of its list.
  unfoldable pub project_tree :
      MenuEntry → (priors : List MenuEntry) (parent depth : ℕ) → Progress → Option Progress
  project_tree null priors parent depth s = some s
  project_tree (entry name expanded sub next) priors parent depth s =
      let rest = project_tree next (priors ++ (entry name expanded sub next ∷ [])) parent depth in
      let below = project_tree sub [] s.1 (depth + 1) in
      if skip (entry name expanded sub next)
      then rest s
      else elim (write_row s.1 (entry name expanded sub next)
          (row priors name expanded sub next parent depth) s.0) [
            | none ↦ none
            | some m ↦
                (if not_null sub && expanded then below (m, s.1 + 1) else some (m, s.1 + 1))
                >>? rest
          ]

-- The arrays that ext_mem_alloc_counted() returns; a call that panics does not come back.
module _ (new_rows : ℕ → List MenuRow) (new_entries : ℕ → List MenuEntry) where
  -- The memory of the old arrays goes back to the allocator, which is not modelled here.
  unfoldable pub resize : ℕ → MenuModel → MenuModel
  resize n m = if n == m.count then m else record {
    rows = if n == 0 then [] else new_rows n;
    entries = if n == 0 then [] else new_entries n;
    count = n;
  }

module _ (skip : MenuEntry → Bool) (new_rows : ℕ → List MenuRow)
    (new_entries : ℕ → List MenuEntry) where
  unfoldable pub update : MenuEntry → MenuModel → Option MenuModel
  update tree m =
      elim (project_tree skip tree [] no_parent 0
        (resize new_rows new_entries (count skip tree) m, 0)) [ none ↦ none | some s ↦ some s.0 ]

-- NULL for an index out of range.
unfoldable pub model_entry : MenuModel → ℕ → MenuEntry
model_entry m i =
    if ltb i m.count then elim (get_elem? m.entries i) [ none ↦ null | some e ↦ e ] else null
