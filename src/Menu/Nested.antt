-- ===== src/Menu/Nested.antt =====
-- How the rows of common/menu_model.c refer to each other by their member `parent`.
use limine_eucleia.Prelude.{
  ℕ, zero, suc, ◌+◌, ◌-◌, ◌≤◌, ◌<◌, ◌≡◌, ◌⊎◌, refl, sym, ap, ◌∙◌, Bool, true, ◌&&◌, some, List, [],
  ◌∷◌, ◌++◌, arith, length, get_elem?, get_elem?-append, get_elem?-lt, Bool-cases, inl, inr, subst,
  ltb, ltb→lt,
}
use limine_eucleia.Menu.Model.{MenuEntry, null, entry, not_null, row}
use limine_eucleia.Menu.Listing.{Item, listing}

-- An item below another one: that stands earlier in the list, at the index that the row names as its
-- parent, one level up, and is an expanded directory.
pub record Below (xs : List Item) (i k : ℕ) (x : Item) : Type 0 where
  pub at : ℕ
  pub item : Item
  pub earlier : at < k
  pub found : get_elem? xs at ≡ some item
  pub parent_eq : x.0.parent ≡ i + at
  pub depth_eq : x.0.depth ≡ item.0.depth + 1
  pub directory : item.0.directory ≡ true
  pub expanded : item.0.expanded ≡ true

abbrev pub Nested : List Item → (i parent depth : ℕ) → Type 0
Nested xs i parent depth =
    (k : ℕ) (x : Item)
    → get_elem? xs k ≡ some x
    → ((x.0.parent ≡ parent) × (x.0.depth ≡ depth)) ⊎ Below xs i k x

get_elem?-append_right {ℓ} :
    {A : Type ℓ} (xs ys : List A) (k : ℕ)
    → length xs ≤ k
    → get_elem? (xs ++ ys) k ≡ get_elem? ys (k - length xs)
get_elem?-append_right [] ys k h = ap (get_elem? ys) (omega arith)
get_elem?-append_right (x ∷ xs) ys zero h = absurd (omega arith)
get_elem?-append_right (x ∷ xs) ys (suc k) h =
    get_elem?-append_right xs ys k (omega arith) ∙ ap (get_elem? ys) (omega arith)

Nested-append :
    (xs ys : List Item) (i parent depth : ℕ)
    → Nested xs i parent depth
    → Nested ys (i + length xs) parent depth
    → Nested (xs ++ ys) i parent depth
Nested-append xs ys i parent depth f g k x h = elim (Bool-cases (ltb k (length xs))) [
  | inl c ↦ elim (f k x (sym (get_elem?-append xs ys k (ltb→lt k (length xs) c)) ∙ h)) [
    | inl top ↦ inl top
    | inr b ↦ inr (record {
      at = b.at;
      item = b.item;
      earlier = b.earlier;
      found = get_elem?-append xs ys b.at (get_elem?-lt xs b.at b.found) ∙ b.found;
      parent_eq = b.parent_eq;
      depth_eq = b.depth_eq;
      directory = b.directory;
      expanded = b.expanded;
    })
  ]
  | inr c ↦ elim (g (k - length xs) x (sym (get_elem?-append_right xs ys k (ground arith)) ∙ h)) [
    | inl top ↦ inl top
    | inr b ↦ inr (record {
      at = length xs + b.at;
      item = b.item;
      earlier = ground (arith, b.earlier);
      found =
          get_elem?-append_right xs ys (length xs + b.at) (omega arith)
          ∙ ap (get_elem? ys) (omega arith)
          ∙ b.found;
      parent_eq = omega (arith, b.parent_eq);
      depth_eq = b.depth_eq;
      directory = b.directory;
      expanded = b.expanded;
    })
  ]
]

abbrev Top : Item → (parent depth : ℕ) → Type 0
Top y parent depth = (y.0.parent ≡ parent) × (y.0.depth ≡ depth)

some-inj : (x y : Item) → some x ≡ some y → x ≡ y
some-inj x y h = cc

-- An entry with what it holds below it.
Nested-cons :
    (y : Item) (xs : List Item) (i parent depth : ℕ)
    → Top y parent depth
    → y.0.directory ≡ true
    → y.0.expanded ≡ true
    → Nested xs (i + 1) i (depth + 1)
    → Nested (y ∷ xs) i parent depth
Nested-cons y xs i parent depth top d e f zero x h =
    inl (subst (λ z. Top z parent depth) (some-inj y x h) top)
Nested-cons y xs i parent depth top d e f (suc k) x h = elim (f k x h) [
  | inl t ↦ inr (record {
    at = 0;
    item = y;
    earlier = omega arith;
    found = refl;
    parent_eq = omega (arith, t.0);
    depth_eq = omega (arith, t.1, top.1);
    directory = d;
    expanded = e;
  })
  | inr b ↦ inr (record {
    at = suc b.at;
    item = b.item;
    earlier = omega (arith, b.earlier);
    found = b.found;
    parent_eq = omega (arith, b.parent_eq);
    depth_eq = b.depth_eq;
    directory = b.directory;
    expanded = b.expanded;
  })
]

Nested-single :
    (y : Item) (i parent depth : ℕ) → Top y parent depth → Nested (y ∷ []) i parent depth
Nested-single y i parent depth top zero x h =
    inl (subst (λ z. Top z parent depth) (some-inj y x h) top)
Nested-single y i parent depth top (suc k) x h = absurd (ground arith)

module _ (skip : MenuEntry → Bool) where
  module _ (name : List ℕ) (expanded : Bool) (sub next : MenuEntry) (priors : List MenuEntry)
      (parent depth i : ℕ) where
    here : Item
    here = (row skip priors name expanded sub next parent depth, entry name expanded sub next)

    here-Top : Top here parent depth
    unfolding row here
    here-Top = (refl, refl)

    here-directory :
        (not_null sub && expanded) ≡ true → (here.0.directory ≡ true) × (here.0.expanded ≡ true)
    unfolding row here
    here-directory d = ground arith

  -- Every row of the listing is at the top, or lies below an earlier row: that is the row that it
  -- names as its parent, one level up, and a directory that is expanded.
  pub listing-Nested :
      (e : MenuEntry) (priors : List MenuEntry) (parent depth i : ℕ)
      → Nested (listing skip e priors parent depth i) i parent depth
  unfolding listing here
  listing-Nested null priors parent depth i = λ k x h. absurd (ground arith)
  listing-Nested (entry name expanded sub next) priors parent depth i =
      elim (Bool-cases (skip this)) [
        | inl c ↦ rw c (listing-Nested next (priors ++ (this ∷ [])) parent depth i)
        | inr c ↦ rw c (elim (Bool-cases (not_null sub && expanded)) [
          | inl d ↦ rw d (
              Nested-append (first ∷ below) _ i parent depth
                (Nested-cons first below i parent depth top
                  (here-directory name expanded sub next priors parent depth i d).0
                  (here-directory name expanded sub next priors parent depth i d).1
                  (listing-Nested sub [] i (depth + 1) (i + 1)))
                (subst
                  (λ j.
                    Nested
                      (listing skip next (priors ++ (this ∷ [])) parent depth
                        (i + 1 + length below))
                      j parent depth)
                  (omega arith)
                  (listing-Nested next (priors ++ (this ∷ [])) parent depth
                    (i + 1 + length below))))
          | inr d ↦ rw d (
              Nested-append (first ∷ []) _ i parent depth (Nested-single first i parent depth top)
                (listing-Nested next (priors ++ (this ∷ [])) parent depth (i + 1)))
        ])
      ]
    where
      this : MenuEntry
      this = entry name expanded sub next

      first : Item
      first = here name expanded sub next priors parent depth i

      top : Top first parent depth
      top = here-Top name expanded sub next priors parent depth i

      below : List Item
      below = listing skip sub [] i (depth + 1) (i + 1)
