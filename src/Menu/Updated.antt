-- ===== src/Menu/Updated.antt =====
-- menu_model_update() of common/menu_model.c as a whole: the arrays are the listing of the tree.
use limine_eucleia.Prelude.{
  ℕ, zero, suc, ◌+◌, ◌≤◌, ◌≡◌, refl, sym, ap, ◌∙◌, Bool, some, List, [], ◌∷◌, ◌++◌, arith, length,
  length-set, set, take, take-all, map,
}
use mathlib.Core.List.{append-nil, append_assoc}
use limine_eucleia.Menu.Model.{MenuEntry, MenuRow, MenuModel, count, resize, update, no_parent}
use limine_eucleia.Menu.Listing.{Item, listing, length-listing, splice}
use limine_eucleia.Menu.Projected.{project-Projects}

-- The items of an array written one by one.
unfoldable fill {ℓ} : {A : Type ℓ} → List A → ℕ → List A → List A
fill xs i [] = xs
fill xs i (y ∷ ys) = fill (set xs i y) (i + 1) ys

take-suc-set {ℓ} :
    {A : Type ℓ} (xs : List A) (i : ℕ) (y : A)
    → suc i ≤ length xs
    → take (suc i) (set xs i y) ≡ take i xs ++ (y ∷ [])
take-suc-set [] i y h = absurd (omega arith)
take-suc-set (x ∷ xs) zero y h = refl
take-suc-set (x ∷ xs) (suc i) y h = ap (λ t. x ∷ t) (take-suc-set xs i y (omega arith))

fill-eq {ℓ} :
    {A : Type ℓ} (ys xs : List A) (i : ℕ)
    → i + length ys ≡ length xs
    → fill xs i ys ≡ take i xs ++ ys
unfolding fill
fill-eq [] xs i h = sym (append-nil (take i xs) ∙ take-all xs i (omega arith))
fill-eq (y ∷ ys) xs i h =
    fill-eq ys (set xs i y) (i + 1) (omega (arith, length-set xs i y))
    ∙ ap (λ k. take k (set xs i y) ++ ys) {y = suc i} (omega arith)
    ∙ ap (λ t. t ++ ys) (take-suc-set xs i y (omega arith))
    ∙ append_assoc (take i xs) (y ∷ []) ys

splice-rows :
    (xs : List Item) (m : MenuModel) (i : ℕ)
    → (splice m i xs).rows ≡ fill m.rows i (map (λ x. x.0) xs)
unfolding splice fill
splice-rows [] m i = refl
splice-rows (x ∷ xs) m i = splice-rows xs _ (i + 1)

splice-entries :
    (xs : List Item) (m : MenuModel) (i : ℕ)
    → (splice m i xs).entries ≡ fill m.entries i (map (λ x. x.1) xs)
unfolding splice fill
splice-entries [] m i = refl
splice-entries (x ∷ xs) m i = splice-entries xs _ (i + 1)

splice-count : (xs : List Item) (m : MenuModel) (i : ℕ) → (splice m i xs).count ≡ m.count
unfolding splice
splice-count [] m i = refl
splice-count (x ∷ xs) m i = splice-count xs _ (i + 1)

length-map {ℓ κ} :
    {A : Type ℓ} {B : Type κ} (f : A → B) (xs : List A) → length (map f xs) ≡ length xs
length-map f [] = refl
length-map f (x ∷ xs) = ap suc (length-map f xs)

-- The arrays have the size that the model says.
abbrev pub Sized : MenuModel → Type 0
Sized m = (length m.rows ≡ m.count) × (length m.entries ≡ m.count)

model-eq :
    (m : MenuModel) {rows : List MenuRow} {entries : List MenuEntry} {n : ℕ}
    → m.rows ≡ rows
    → m.entries ≡ entries
    → m.count ≡ n
    → m ≡ record { rows = rows; entries = entries; count = n }
model-eq m p q r = λ i. record { rows = p i; entries = q i; count = r i }

splice-all :
    (m : MenuModel) (xs : List Item)
    → Sized m
    → length xs ≡ m.count
    → splice m 0 xs
      ≡ record { rows = map (λ x. x.0) xs; entries = map (λ x. x.1) xs; count = m.count }
splice-all m xs s h =
    model-eq (splice m 0 xs)
      (splice-rows xs m 0
        ∙ fill-eq (map (λ x. x.0) xs) m.rows 0
            (omega (arith, length-map (λ (x : Item). x.0) xs, s.0)))
      (splice-entries xs m 0
        ∙ fill-eq (map (λ x. x.1) xs) m.entries 0
            (omega (arith, length-map (λ (x : Item). x.1) xs, s.1)))
      (splice-count xs m 0)

module _ (skip : MenuEntry → Bool) (new_rows : ℕ → List MenuRow) (new_entries : ℕ → List MenuEntry)
    (rows_sized : (n : ℕ) → length (new_rows n) ≡ n)
    (entries_sized : (n : ℕ) → length (new_entries n) ≡ n) where
  resize-Sized :
      (n : ℕ) (m : MenuModel)
      → Sized m
      → Sized (resize new_rows new_entries n m) × ((resize new_rows new_entries n m).count ≡ n)
  unfolding resize
  resize-Sized n m s = ground (arith, rows_sized n, entries_sized n)

  -- Where the allocator returns arrays of the sizes asked for and the arrays have the sizes that
  -- the model says, menu_model_update() writes only inside its arrays and leaves in them the
  -- listing of the tree: each entry that is not skipped, then what it holds if it is expanded,
  -- then the rest of its list, each with its row; the count is the length of that.
  pub update-listing :
      (tree : MenuEntry) (m : MenuModel)
      → Sized m
      → update skip new_rows new_entries tree m
        ≡ some (record {
          rows = map (λ x. x.0) (listing skip tree [] no_parent 0 0);
          entries = map (λ x. x.1) (listing skip tree [] no_parent 0 0);
          count = count skip tree;
        })
  unfolding update
  update-listing tree m s =
      let z = resize-Sized (count skip tree) m s in
      let l = length-listing skip tree [] no_parent 0 0 in
      let p =
        project-Projects skip tree [] no_parent 0 (resize new_rows new_entries (count skip tree) m)
          0 (omega (arith, z.0.0, z.1), omega (arith, z.0.1, z.1)) in
      rw (p, update)
        (ap some (
          splice-all (resize new_rows new_entries (count skip tree) m)
            (listing skip tree [] no_parent 0 0) z.0 (l ∙ sym z.1)
          ∙ ap
              (λ n. record {
                rows = map (λ x. x.0) (listing skip tree [] no_parent 0 0);
                entries = map (λ x. x.1) (listing skip tree [] no_parent 0 0);
                count = n;
              })
              z.1))
