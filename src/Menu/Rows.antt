-- ===== src/Menu/Rows.antt =====
-- The rows that menu_model_update() of common/menu_model.c leaves, as menu_row_matches() and the
-- views walk them: from a row to its parent.
use limine_eucleia.Prelude.{
  ℕ, zero, suc, ◌+◌, ◌<◌, ◌≡◌, ◌⊎◌, refl, sym, ap, ◌∙◌, Bool, true, Option, none, some, List, [],
  ◌∷◌, length, get_elem?, map, inl, inr, arith,
}
use limine_eucleia.Menu.Model.{MenuEntry, MenuRow, MenuModel, update, no_parent}
use limine_eucleia.Menu.Listing.{Item, listing}
use limine_eucleia.Menu.Nested.{Nested, listing-Nested}
use limine_eucleia.Menu.Updated.{Sized, update-listing}

get_elem?-map {ℓ κ} :
    {A : Type ℓ} {B : Type κ} (f : A → B) (xs : List A) (k : ℕ) {x : A}
    → get_elem? xs k ≡ some x
    → get_elem? (map f xs) k ≡ some (f x)
get_elem?-map f [] k h = cc
get_elem?-map f (y ∷ xs) zero h = cc
get_elem?-map f (y ∷ xs) (suc k) h = get_elem?-map f xs k h

map-get_elem? {ℓ κ} :
    {A : Type ℓ} {B : Type κ} (f : A → B) (xs : List A) (k : ℕ) {y : B}
    → get_elem? (map f xs) k ≡ some y
    → (x : A) × (get_elem? xs k ≡ some x) × (f x ≡ y)
map-get_elem? f [] k h = cc
map-get_elem? f (x ∷ xs) zero h = (x, refl, cc)
map-get_elem? f (x ∷ xs) (suc k) h = map-get_elem? f xs k h

-- The row at `k` lies below the row at its index `parent`.
pub record Under (rows : List MenuRow) (k : ℕ) (r : MenuRow) : Type 0 where
  pub row : MenuRow
  pub earlier : r.parent < k
  pub found : get_elem? rows r.parent ≡ some row
  pub depth_eq : r.depth ≡ row.depth + 1
  pub directory : row.directory ≡ true
  pub expanded : row.expanded ≡ true

abbrev pub Tree : List MenuRow → Type 0
Tree rows =
    (k : ℕ) (r : MenuRow)
    → get_elem? rows k ≡ some r
    → ((r.parent ≡ no_parent) × (r.depth ≡ 0)) ⊎ Under rows k r

Nested-Tree : (xs : List Item) → Nested xs 0 no_parent 0 → Tree (map (λ x. x.0) xs)
Nested-Tree xs f k r h =
    let (x, at, q) = map-get_elem? (λ (x : Item). x.0) xs k h in
    elim (f k x at) [
      | inl top ↦ inl (
        sym (ap (λ (s : MenuRow). s.parent) q) ∙ top.0,
        sym (ap (λ (s : MenuRow). s.depth) q) ∙ top.1,
      )
      | inr b ↦
          let p : r.parent ≡ b.at = omega (arith, ap (λ (s : MenuRow). s.parent) q, b.parent_eq) in
          inr (record {
            row = b.item.0;
            earlier = omega (arith, p, b.earlier);
            found = rw p (get_elem?-map (λ (x : Item). x.0) xs b.at b.found);
            depth_eq = sym (ap (λ (s : MenuRow). s.depth) q) ∙ b.depth_eq;
            directory = b.directory;
            expanded = b.expanded;
          })
    ]

abbrev pub Holds : Option MenuModel → (MenuModel → Type 0) → Type 0
Holds none P = ⊥
Holds (some m) P = P m

module _ (skip : MenuEntry → Bool) (new_rows : ℕ → List MenuRow) (new_entries : ℕ → List MenuEntry)
    (rows_sized : (n : ℕ) → length (new_rows n) ≡ n)
    (entries_sized : (n : ℕ) → length (new_entries n) ≡ n) where
  -- Where the allocator returns arrays of the sizes asked for and the arrays have the sizes that
  -- the model says, menu_model_update() returns rows of which each is at depth 0 with no parent,
  -- or names as its parent an earlier row, one level up, that is a directory and expanded.
  pub update-Tree :
      (tree : MenuEntry) (m : MenuModel)
      → Sized m
      → Holds (update skip new_rows new_entries tree m) (λ m'. Tree m'.rows)
  update-Tree tree m s =
      rw (update-listing skip new_rows new_entries rows_sized entries_sized tree m s) (
        Nested-Tree (listing skip tree [] no_parent 0 0)
          (listing-Nested skip tree [] no_parent 0 0))
