-- ===== src/Menu/Chained.antt =====
-- The rows of common/menu_model.c and the paths that menu_row_matches() takes.
use mathlib.Core.List.{append-nil, append_assoc}
use limine_eucleia.Prelude.{
  ℕ, zero, suc, ◌≤◌, ◌<◌, ◌≡◌, ◌↔◌, ◌++◌, ◌∙◌, ap, refl, sym, true, false, none, some, List, [],
  ◌∷◌, arith, ◌==◌, ==_iff, if◌then◌else◌, length, get_elem?, get_elem?-lt, inl, inr,
}
use limine_eucleia.Menu.Model.{MenuRow, no_parent}
use limine_eucleia.Menu.Rows.{Under, Tree}
use limine_eucleia.Menu.Matches.{chain, chain_step, wrong_parent, menu_row_matches}
use limine_eucleia.Menu.Path.{Labels, Numbered, path_text, menu_row_matches-path_text}

-- The rows from the top down to a row, which follows the row that it names as its parent.
pub data Lineage (rows : List MenuRow) : (index : ℕ) → List MenuRow → Type 0 where
  root :
      {i : ℕ} {r : MenuRow}
      → get_elem? rows i ≡ some r
      → r.parent ≡ no_parent
      → Lineage rows i (r ∷ [])
  below :
      {i : ℕ} {r : MenuRow} {upper : List MenuRow}
      → get_elem? rows i ≡ some r
      → Lineage rows r.parent upper
      → Lineage rows i (upper ++ (r ∷ []))

chain-top : (left : ℕ) (rows behind : List MenuRow) → chain left rows no_parent behind ≡ some behind
unfolding chain
chain-top zero rows behind = refl
chain-top (suc left) rows behind = refl

not-top : (i : ℕ) → i < no_parent → (i == no_parent) ≡ false
not-top i l = ground (arith, l)

chain-row :
    (left : ℕ) (rows : List MenuRow) (i : ℕ) (r : MenuRow) (behind : List MenuRow)
    → get_elem? rows i ≡ some r
    → i < no_parent
    → wrong_parent i r ≡ false
    → chain (suc left) rows i behind ≡ chain left rows r.parent (r ∷ behind)
unfolding chain
chain-row left rows i r behind h l w =
    ap (λ t. if t then some behind else chain_step (chain left rows) i (get_elem? rows i) behind)
      (not-top i l)
    ∙ ap (λ o. chain_step (chain left rows) i o behind) h
    ∙ ap (λ t. if t then none else chain left rows r.parent (r ∷ behind)) w

wrong_parent-top : (i : ℕ) (r : MenuRow) → r.parent ≡ no_parent → wrong_parent i r ≡ false
wrong_parent-top i r e = rw ((==_iff r.parent no_parent).1 e) refl

wrong_parent-earlier : (i : ℕ) (r : MenuRow) → r.parent < i → wrong_parent i r ≡ false
wrong_parent-earlier i r l = ground (arith, l)

Lineage-lt :
    (rows : List MenuRow) {i : ℕ} {line : List MenuRow} → Lineage rows i line → i < length rows
Lineage-lt rows {i} (root h p) = get_elem?-lt rows i h
Lineage-lt rows {i} (below h u) = get_elem?-lt rows i h

module _ (rows : List MenuRow) (t : Tree rows) (l : length rows ≤ no_parent) where
  -- A row that is below another is no top row, and its parent stands before it, one level up.
  below-Under :
      (i : ℕ) (r : MenuRow) (upper : List MenuRow)
      → get_elem? rows i ≡ some r
      → Lineage rows r.parent upper
      → Under rows i r
  below-Under i r upper h u = elim (t i r h) [
    | inl top ↦ absurd (omega (arith, l, top.0, Lineage-lt rows u))
    | inr b ↦ b
  ]

  -- The walk up to the top collects the rows of the lineage.
  Lineage-chain :
      (left : ℕ) {i : ℕ} {line : List MenuRow} (r : MenuRow) (behind : List MenuRow)
      → get_elem? rows i ≡ some r
      → r.depth < left
      → Lineage rows i line
      → chain left rows i behind ≡ some (line ++ behind)
  Lineage-chain zero r behind h d u = absurd (omega (arith, d))
  Lineage-chain (suc left) {i} r behind h d (root {r = x} e p) =
      chain-row left rows i x behind e (omega (arith, l, get_elem?-lt rows i e))
        (wrong_parent-top i x p)
      ∙ ap (λ q. chain left rows q (x ∷ behind)) p
      ∙ chain-top left rows (x ∷ behind)
  Lineage-chain (suc left) {i} r behind h d (below {r = x} {upper = upper} e u) =
      let b = below-Under i x upper e u in
      let same : some r ≡ some x = sym h ∙ e in
      let deep : r.depth ≡ x.depth = cc same in
      chain-row left rows i x behind e (omega (arith, l, get_elem?-lt rows i e))
        (wrong_parent-earlier i x (b.earlier))
      ∙ Lineage-chain left (b.row) (x ∷ behind) (b.found) (omega (arith, d, deep, b.depth_eq)) u
      ∙ ap some (sym (append_assoc upper (x ∷ []) behind))

  -- In fewer than 2^64 rows that refer to each other as menu_model_update() makes them, take a
  -- row with at most 63 rows above it, and digits for it and for each of these rows (none stand
  -- for 0) whose numbers are at most 18446744073709551609, which is (2^64 - 10) / 10 * 10 + 9.
  -- On the path of the names from the top down to the row, with their special characters
  -- escaped, joined by slashes, each followed by a number sign and its digits where it has any,
  -- menu_row_matches() is true exactly where the digits of each row spell its duplicate.
  pub menu_row_matches-Tree :
      (i : ℕ) (r : MenuRow) (line : List MenuRow) (dss : List (List ℕ))
      → get_elem? rows i ≡ some r
      → r.depth < 64
      → Lineage rows i line
      → Labels line dss
      → (menu_row_matches rows i (path_text line dss) ≡ true) ↔ Numbered line dss
  menu_row_matches-Tree i r line dss h d u p =
      menu_row_matches-path_text rows i line dss
        (Lineage-chain 64 r [] h d u ∙ ap some (append-nil line)) p
