-- ===== src/Menu/Tests.antt =====
-- Runs of the menu's code, and its theorems at concrete inputs.
use limine_eucleia.Prelude.{
  ℕ, zero, suc, ◌≡◌, ◌↔◌, refl, ap, inl, inr, arith, get_elem?, ◌<◌, Bool, true, false, List, [],
  ◌∷◌, replicate, length-replicate, some, map,
}
use limine_eucleia.Menu.Matches.{chain, match_name, read_digits, match_rows, menu_row_matches}
use limine_eucleia.Menu.Path.{Numbered, path_text}
use limine_eucleia.Menu.Chained.{root, below, menu_row_matches-Tree}
use limine_eucleia.Menu.Rows.{Under}
use limine_eucleia.Text.Numeral.{value}
use limine_eucleia.Menu.Model.{
  MenuEntry, null, entry, MenuRow, MenuModel, count, project_tree, row, duplicates, same_name,
  write_row, resize, update, no_parent,
}
use limine_eucleia.Menu.Listing.{listing}
use limine_eucleia.Menu.Updated.{update-listing}
use limine_eucleia.Menu.Rows.{Holds, Tree, update-Tree}

-- An expanded directory with an entry, and two entries of one name, the first of them hidden.
abbrev menu_tree : MenuEntry
menu_tree =
    entry (65 ∷ []) true (entry (66 ∷ []) false null null)
      (entry (67 ∷ []) false null (entry (65 ∷ []) false null null))

abbrev hide : MenuEntry → Bool
hide null = false
hide (entry name expanded sub next) = same_name name (67 ∷ [])

abbrev no_model : MenuModel
no_model = record { rows = []; entries = []; count = 0 }

abbrev blank : MenuRow
blank = record {
  name = [];
  parent = 0;
  depth = 0;
  duplicate = 0;
  directory = false;
  expanded = false;
  has_next_sibling = false;
}

abbrev new_rows : ℕ → List MenuRow
new_rows n = replicate n blank

abbrev new_entries : ℕ → List MenuEntry
new_entries n = replicate n null

abbrev menu_row : List ℕ → (parent depth duplicate : ℕ) (directory expanded next : Bool) → MenuRow
menu_row name parent depth duplicate directory expanded next = record {
  name = name;
  parent = parent;
  depth = depth;
  duplicate = duplicate;
  directory = directory;
  expanded = expanded;
  has_next_sibling = next;
}

update_run :
    update hide new_rows new_entries menu_tree no_model
    ≡ some (record {
      rows =
          menu_row (65 ∷ []) no_parent 0 0 true true true
          ∷ menu_row (66 ∷ []) 0 1 0 false false false
          ∷ menu_row (65 ∷ []) no_parent 0 1 false false false
          ∷ [];
      entries = menu_tree ∷ entry (66 ∷ []) false null null ∷ entry (65 ∷ []) false null null ∷ [];
      count = 3;
    })
unfolding update resize count project_tree row duplicates same_name write_row
update_run = refl

update-listing_example :
    update hide new_rows new_entries menu_tree no_model
    ≡ some (record {
      rows = map (λ x. x.0) (listing hide menu_tree [] no_parent 0 0);
      entries = map (λ x. x.1) (listing hide menu_tree [] no_parent 0 0);
      count = count hide menu_tree;
    })
update-listing_example =
    update-listing hide new_rows new_entries (λ n. length-replicate n blank)
      (λ n. length-replicate n null) menu_tree no_model (refl, refl)

update-Tree_example :
    Holds (update hide new_rows new_entries menu_tree no_model) (λ m'. Tree m'.rows)
update-Tree_example =
    update-Tree hide new_rows new_entries (λ n. length-replicate n blank)
      (λ n. length-replicate n null) menu_tree no_model (refl, refl)

abbrev three_rows : List MenuRow
three_rows =
    menu_row (b'a' ∷ b'/' ∷ []) no_parent 0 0 true true true
    ∷ menu_row (b'b' ∷ []) 0 1 0 false false false
    ∷ menu_row (b'b' ∷ []) 0 1 1 false false false
    ∷ []

-- "a\\//b#1".
matches_run :
    menu_row_matches three_rows 2 (b'a' ∷ b'\\' ∷ b'/' ∷ b'/' ∷ b'b' ∷ b'#' ∷ b'1' ∷ []) ≡ true
unfolding menu_row_matches chain match_rows match_name read_digits
matches_run = refl

-- The first row is the parent of the two others.
below_first : (k : ℕ) (r : MenuRow) → r.parent ≡ 0 → r.depth ≡ 1 → 0 < k → Under three_rows k r
below_first k r p d l = record {
  row = menu_row (b'a' ∷ b'/' ∷ []) no_parent 0 0 true true true;
  earlier = omega (arith, p, l);
  found = ap (get_elem? three_rows) p;
  depth_eq = d;
  directory = refl;
  expanded = refl;
}

three_rows-Tree : Tree three_rows
three_rows-Tree zero r h = inl (cc, cc)
three_rows-Tree (suc zero) r h =
    let p : r.parent ≡ 0 = cc in let d : r.depth ≡ 1 = cc in inr (below_first 1 r p d (omega arith))
three_rows-Tree (suc (suc zero)) r h =
    let p : r.parent ≡ 0 = cc in let d : r.depth ≡ 1 = cc in inr (below_first 2 r p d (omega arith))
three_rows-Tree (suc (suc (suc k))) r h = cc

abbrev first_row : MenuRow
first_row = menu_row (b'a' ∷ b'/' ∷ []) no_parent 0 0 true true true

abbrev third_row : MenuRow
third_row = menu_row (b'b' ∷ []) 0 1 1 false false false

-- "a\\//b#1", for the second row of the name.
menu_row_matches-Tree_example :
    (menu_row_matches three_rows 2 (path_text (first_row ∷ third_row ∷ []) ([] ∷ (1 ∷ []) ∷ []))
      ≡ true)
    ↔ Numbered (first_row ∷ third_row ∷ []) ([] ∷ (1 ∷ []) ∷ [])
unfolding value
menu_row_matches-Tree_example =
    menu_row_matches-Tree three_rows three_rows-Tree (omega arith) 2 third_row
      (first_row ∷ third_row ∷ []) ([] ∷ (1 ∷ []) ∷ []) refl (omega arith)
      (below refl (root refl refl)) (tt, omega arith, ((omega arith, tt), omega arith, tt))

-- "a\\//b" is the path of the other row of the name.
other_row_run : menu_row_matches three_rows 2 (b'a' ∷ b'\\' ∷ b'/' ∷ b'/' ∷ b'b' ∷ []) ≡ false
unfolding menu_row_matches chain match_rows match_name read_digits
other_row_run = refl
