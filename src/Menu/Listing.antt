-- ===== src/Menu/Listing.antt =====
-- The rows that the projection of common/menu_model.c is to have: the entries in the order in which
-- the menu shows them.
use limine_eucleia.Prelude.{
  ℕ, ◌+◌, ◌≤◌, ◌≡◌, refl, ap, ◌∙◌, Bool, true, ◌&&◌, some, List, [], ◌∷◌, ◌++◌, arith, ltb,
  if◌then◌else◌, length, length-append, length-set, set, Bool-cases, inl, inr,
}
use limine_eucleia.Menu.Model.{
  MenuEntry, null, entry, MenuRow, MenuModel, not_null, count, row, write_row,
}

-- A row and its entry.
abbrev pub Item : Type 0
Item = MenuRow × MenuEntry

module _ (skip : MenuEntry → Bool) where
  -- An entry that is not skipped, then what it holds if it is expanded, then the rest of its list.
  unfoldable pub listing :
      MenuEntry → (priors : List MenuEntry) (parent depth index : ℕ) → List Item
  listing null priors parent depth index = []
  listing (entry name expanded sub next) priors parent depth index =
      let this = entry name expanded sub next in
      let rest = listing next (priors ++ (this ∷ [])) parent depth in
      let below = listing sub [] index (depth + 1) (index + 1) in
      if skip this
      then rest index
      else if not_null sub && expanded
      then (row skip priors name expanded sub next parent depth, this)
        ∷ (below ++ rest (index + 1 + length below))
      else (row skip priors name expanded sub next parent depth, this) ∷ rest (index + 1)

  pub length-listing :
      (e : MenuEntry) (priors : List MenuEntry) (parent depth index : ℕ)
      → length (listing e priors parent depth index) ≡ count skip e
  unfolding listing count
  length-listing null priors parent depth index = refl
  length-listing (entry name expanded sub next) priors parent depth index =
      elim (Bool-cases (skip (entry name expanded sub next))) [
        | inl c ↦ rw c (length-listing next _ parent depth index)
        | inr c ↦ rw c (elim (Bool-cases (not_null sub && expanded)) [
          | inl d ↦ rw d (
              omega (
                arith,
                length-append (listing sub [] index (depth + 1) (index + 1)) (
                    listing next (priors ++ (entry name expanded sub next ∷ [])) parent depth
                      (index + 1 + length (listing sub [] index (depth + 1) (index + 1)))),
                length-listing sub [] index (depth + 1) (index + 1),
                length-listing next (priors ++ (entry name expanded sub next ∷ [])) parent depth
                    (index + 1 + length (listing sub [] index (depth + 1) (index + 1))),
              ))
          | inr d ↦ rw d (
              omega (
                arith,
                length-listing next (priors ++ (entry name expanded sub next ∷ [])) parent depth
                    (index + 1),
              ))
        ])
      ]

-- The items written to the arrays from an index on.
unfoldable pub splice : MenuModel → ℕ → List Item → MenuModel
splice m i [] = m
splice m i (x ∷ xs) =
    splice (record m { rows = set m.rows i x.0; entries = set m.entries i x.1 }) (i + 1) xs

pub splice-append :
    (m : MenuModel) (i : ℕ) (xs ys : List Item)
    → splice m i (xs ++ ys) ≡ splice (splice m i xs) (i + length xs) ys
unfolding splice
splice-append m i [] ys = ap (λ k. splice m k ys) (omega arith)
splice-append m i (x ∷ xs) ys =
    splice-append (record m { rows = set m.rows i x.0; entries = set m.entries i x.1 }) (i + 1) xs
      ys
    ∙ ap
        (λ k.
          splice
            (splice (record m { rows = set m.rows i x.0; entries = set m.entries i x.1 }) (i + 1)
              xs)
            k ys)
        (omega arith)

-- Room for `n` more items.
abbrev pub Room : MenuModel → ℕ → Type 0
Room m n = (n ≤ length m.rows) × (n ≤ length m.entries)

pub splice-Room : (m : MenuModel) (i n : ℕ) (xs : List Item) → Room m n → Room (splice m i xs) n
unfolding splice
splice-Room m i n [] r = r
splice-Room m i n (x ∷ xs) r =
    splice-Room (record m { rows = set m.rows i x.0; entries = set m.entries i x.1 }) (i + 1) n xs
      (omega (arith, length-set m.rows i x.0, r.0), omega (arith, length-set m.entries i x.1, r.1))

pub write_row-splice :
    (m : MenuModel) (i : ℕ) (e : MenuEntry) (r : MenuRow)
    → Room m (i + 1)
    → write_row i e r m ≡ some (splice m i ((r, e) ∷ []))
unfolding write_row splice
write_row-splice m i e r h =
    let fits : (ltb i (length m.entries) && ltb i (length m.rows)) ≡ true =
      ground (arith, h.0, h.1) in
    rw (fits, write_row) refl

pub splice-cons :
    (m : MenuModel) (i : ℕ) (x : Item) (xs : List Item)
    → splice m i (x ∷ xs) ≡ splice (splice m i (x ∷ [])) (i + 1) xs
unfolding splice
splice-cons m i x xs = refl

pub splice-nil : (m : MenuModel) (i : ℕ) → m ≡ splice m i []
unfolding splice
splice-nil m i = refl
