-- ===== src/Menu/Projected.antt =====
-- The projection of common/menu_model.c writes the listing, and nothing outside its arrays.
use limine_eucleia.Prelude.{
  ℕ, ◌+◌, ◌≡◌, refl, sym, ap, ◌∙◌, Bool, true, false, ◌&&◌, some, List, [], ◌∷◌, ◌++◌, arith,
  length, Bool-cases, inl, inr,
}
use limine_eucleia.Menu.Model.{
  MenuEntry, null, entry, MenuModel, not_null, count, row, project_tree, ◌>>?◌,
}
use limine_eucleia.Menu.Listing.{
  Item, listing, length-listing, splice, splice-append, splice-cons, splice-nil, splice-nil,
  splice-Room, Room, write_row-splice,
}

module _ (skip : MenuEntry → Bool) where
  module _ (name : List ℕ) (expanded : Bool) (sub next : MenuEntry) (priors : List MenuEntry)
      (parent depth : ℕ) (m : MenuModel) (i : ℕ)
      (shown : skip (entry name expanded sub next) ≡ false) where
    abbrev this : MenuEntry
    this = entry name expanded sub next

    abbrev here : Item
    here = (row skip priors name expanded sub next parent depth, this)

    -- The model after the write of the row.
    abbrev written : MenuModel
    written = splice m i (here ∷ [])

    project-closed :
        (not_null sub && expanded) ≡ false
        → Room m (i + 1)
        → project_tree skip this priors parent depth (m, i)
          ≡ project_tree skip next (priors ++ (this ∷ [])) parent depth (written, i + 1)
    unfolding project_tree
    project-closed d r = let w = write_row-splice m i this (here.0) r in rw shown (rw w (rw d refl))

    project-open :
        (not_null sub && expanded) ≡ true
        → Room m (i + 1)
        → project_tree skip this priors parent depth (m, i) ≡ (
            project_tree skip sub [] i (depth + 1) (written, i + 1)
            >>? project_tree skip next (priors ++ (this ∷ [])) parent depth)
    unfolding project_tree
    project-open d r = let w = write_row-splice m i this (here.0) r in rw shown (rw w (rw d refl))

    listing-closed :
        (not_null sub && expanded) ≡ false
        → listing skip this priors parent depth i
          ≡ here ∷ listing skip next (priors ++ (this ∷ [])) parent depth (i + 1)
    unfolding listing
    listing-closed d = rw shown (rw d refl)

    -- The items below the entry, and those after it.
    abbrev below : List Item
    below = listing skip sub [] i (depth + 1) (i + 1)

    abbrev after : List Item
    after = listing skip next (priors ++ (this ∷ [])) parent depth (i + 1 + length below)

    listing-open :
        (not_null sub && expanded) ≡ true
        → listing skip this priors parent depth i ≡ here ∷ (below ++ after)
    unfolding listing
    listing-open d = rw shown (rw d refl)

    count-closed : (not_null sub && expanded) ≡ false → count skip this ≡ 1 + count skip next
    unfolding count
    count-closed d = rw shown (rw d refl)

    count-open :
        (not_null sub && expanded) ≡ true → count skip this ≡ 1 + count skip sub + count skip next
    unfolding count
    count-open d = rw shown (rw d refl)

  -- What the projection of an entry and the rest of its list comes to.
  abbrev Projects : MenuEntry → Type 0
  Projects e =
      (priors : List MenuEntry) (parent depth : ℕ) (m : MenuModel) (i : ℕ)
      → Room m (i + count skip e)
      → project_tree skip e priors parent depth (m, i)
        ≡ some (splice m i (listing skip e priors parent depth i), i + count skip e)

  module _ (name : List ℕ) (expanded : Bool) (sub next : MenuEntry) (in_sub : Projects sub)
      (in_next : Projects next) (priors : List MenuEntry) (parent depth : ℕ) (m : MenuModel) (i : ℕ)
      (r : Room m (i + count skip (entry name expanded sub next)))
      (shown : skip (entry name expanded sub next) ≡ false) where
    abbrev Splices : Type 0
    Splices =
        project_tree skip (entry name expanded sub next) priors parent depth (m, i)
        ≡ some (
          splice m i (listing skip (entry name expanded sub next) priors parent depth i),
          i + count skip (entry name expanded sub next),
        )

    splice-closed : (not_null sub && expanded) ≡ false → Splices
    splice-closed d =
        let n = count-closed name expanded sub next priors parent depth m i shown d in
        let l = listing-closed name expanded sub next priors parent depth m i shown d in
        let r1 : Room m (i + 1) = (omega (arith, n, r.0), omega (arith, n, r.1)) in
        let r2 : Room m (i + 1 + count skip next) =
          (omega (arith, n, r.0), omega (arith, n, r.1)) in
        let w = written name expanded sub next priors parent depth m i shown in
        let x = here name expanded sub next priors parent depth m i shown in
        let p = priors ++ (entry name expanded sub next ∷ []) in
        project-closed name expanded sub next priors parent depth m i shown d r1
        ∙ in_next p parent depth w (i + 1) (splice-Room m i (i + 1 + count skip next) (x ∷ []) r2)
        ∙ rw (l, n)
            (ap (λ k. some (k, i + 1 + count skip next))
                (sym (splice-cons m i x (listing skip next p parent depth (i + 1))))
              ∙ ap (λ k. some (splice m i (x ∷ listing skip next p parent depth (i + 1)), k))
                  (omega arith))

    splice-open : (not_null sub && expanded) ≡ true → Splices
    splice-open d =
        let n = count-open name expanded sub next priors parent depth m i shown d in
        let l = listing-open name expanded sub next priors parent depth m i shown d in
        let total : ℕ = i + 1 + count skip sub + count skip next in
        let r1 : Room m (i + 1) = (omega (arith, n, r.0), omega (arith, n, r.1)) in
        let r2 : Room m (i + 1 + count skip sub) = (omega (arith, n, r.0), omega (arith, n, r.1)) in
        let r3 : Room m total = (omega (arith, n, r.0), omega (arith, n, r.1)) in
        let w = written name expanded sub next priors parent depth m i shown in
        let x = here name expanded sub next priors parent depth m i shown in
        let p = priors ++ (entry name expanded sub next ∷ []) in
        let bs = below name expanded sub next priors parent depth m i shown in
        let cs = after name expanded sub next priors parent depth m i shown in
        let inner =
          in_sub [] i (depth + 1) w (i + 1)
            (splice-Room m i (i + 1 + count skip sub) (x ∷ []) r2) in
        let size : length bs ≡ count skip sub = length-listing skip sub [] i (depth + 1) (i + 1) in
        project-open name expanded sub next priors parent depth m i shown d r1
        ∙ rw inner (
            in_next p parent depth (splice w (i + 1) bs) (i + 1 + count skip sub)
              (splice-Room w (i + 1) total bs (splice-Room m i total (x ∷ []) r3))
            ∙ rw (l, n)
                (rw⁻¹ size (
                  ap (λ k. some (k, i + 1 + length bs + count skip next))
                    (sym (splice-cons m i x (bs ++ cs) ∙ splice-append w (i + 1) bs cs))
                  ∙ ap (λ k. some (splice m i (x ∷ (bs ++ cs)), k)) (omega arith))))

  null-Projects : Projects null
  unfolding project_tree count listing
  null-Projects priors parent depth m i r =
      ap (λ k. some (m, k)) (omega arith) ∙ ap (λ k. some (k, i + 0)) (splice-nil m i)

  hidden-Projects :
      (name : List ℕ) (expanded : Bool) (sub next : MenuEntry)
      → Projects next
      → skip (entry name expanded sub next) ≡ true
      → Projects (entry name expanded sub next)
  unfolding project_tree count listing
  hidden-Projects name expanded sub next in_next hidden priors parent depth m i r =
      rw hidden
        (in_next (priors ++ (entry name expanded sub next ∷ [])) parent depth m i (rw hidden at r))

  pub project-Projects : (e : MenuEntry) → Projects e
  project-Projects null priors parent depth m i r = null-Projects priors parent depth m i r
  project-Projects (entry name expanded sub next) priors parent depth m i r =
      elim (Bool-cases (skip (entry name expanded sub next))) [
        | inl h ↦
            hidden-Projects name expanded sub next (project-Projects next) h priors parent depth m i
              r
        | inr h ↦ elim (Bool-cases (not_null sub && expanded)) [
          | inl d ↦
              splice-open name expanded sub next (project-Projects sub) (project-Projects next)
                priors parent depth m i r h d
          | inr d ↦
              splice-closed name expanded sub next (project-Projects sub) (project-Projects next)
                priors parent depth m i r h d
        ]
      ]
