-- ===== src/Menu/Matches.antt =====
-- menu_row_matches() of common/menu_model.c.
use limine_eucleia.Prelude.{
  ℕ, zero, suc, ◌+◌, ◌-◌, ◌*◌, ◌/◌, ◌^◌, Bool, true, false, not, ◌&&◌, ◌||◌, Option, none, some,
  List, [], ◌∷◌, ltb, leb, ◌==◌, if◌then◌else◌, get_elem?,
}
use limine_eucleia.Menu.Model.{MenuRow, no_parent}

-- Whether the parent of a row is refused: it is to stand before the row.
abbrev pub wrong_parent : (at : ℕ) → MenuRow → Bool
wrong_parent at row = not (row.parent == no_parent) && leb at row.parent

abbrev pub Up : Type 0
Up = (at : ℕ) → List MenuRow → Option (List MenuRow)

abbrev pub chain_step : Up → (at : ℕ) → Option MenuRow → List MenuRow → Option (List MenuRow)
chain_step again at none behind = none
chain_step again at (some row) behind =
    if wrong_parent at row then none else again row.parent (row ∷ behind)

-- The rows from the top down to a row, before those that are already there; `left` is the room in the
-- array. An index out of the array is refused here, which the code does not look at.
unfoldable pub chain : (left : ℕ) (rows : List MenuRow) → Up
chain zero rows at behind = if at == no_parent then some behind else none
chain (suc left) rows at behind =
    if at == no_parent
    then some behind
    else chain_step (chain left rows) at (get_elem? rows at) behind

abbrev pub expect : ℕ → List ℕ → Option (List ℕ)
expect c [] = none
expect c (d ∷ s) = if d == c then some s else none

abbrev pub is_special : ℕ → Bool
is_special c = c == b'/' || c == b'#' || c == b'\\'

abbrev pub bind {ℓ} : {A : Type 0} {B : Type ℓ} → Option A → (A → Option B) → Option B
bind none f = none
bind (some a) f = f a

abbrev pub escape : ℕ → List ℕ → Option (List ℕ)
escape c path = if is_special c then expect b'\\' path else some path

-- The path behind a name.
unfoldable pub match_name : (name path : List ℕ) → Option (List ℕ)
match_name [] path = some path
match_name (c ∷ name) path = bind (escape c path) (λ p. bind (expect c p) (λ q. match_name name q))

abbrev pub is_decimal : ℕ → Bool
is_decimal c = leb b'0' c && leb c b'9'

-- (SIZE_MAX - 9) / 10.
abbrev pub max_duplicate : ℕ
max_duplicate = (2 ^ 64 - 10) / 10

unfoldable pub read_digits : (duplicate : ℕ) → List ℕ → Option (ℕ × List ℕ)
read_digits n [] = some (n, [])
read_digits n (c ∷ s) =
    let rest = read_digits (n * 10 + (c - b'0')) s in
    if not (is_decimal c) then some (n, c ∷ s) else if ltb max_duplicate n then none else rest

abbrev pub first_digit : List ℕ → Option (ℕ × List ℕ)
first_digit [] = none
first_digit (c ∷ s) = if is_decimal c then read_digits 0 (c ∷ s) else none

abbrev pub read_duplicate : List ℕ → Option (ℕ × List ℕ)
read_duplicate [] = some (0, [])
read_duplicate (c ∷ s) = if c == b'#' then first_digit s else some (0, c ∷ s)

-- What follows a row whose duplicate is read: a slash before the next row.
abbrev pub behind_row : (more : List MenuRow) → (row : MenuRow) → ℕ × List ℕ → Option (List ℕ)
behind_row [] row r = if r.0 == row.duplicate then some r.1 else none
behind_row (x ∷ xs) row r = if r.0 == row.duplicate then expect b'/' r.1 else none

abbrev pub is_end : List ℕ → Bool
is_end [] = true
is_end (c ∷ s) = false

abbrev pub test : Option (List ℕ) → (List ℕ → Bool) → Bool
test none f = false
test (some s) f = f s

abbrev pub match_row : (more : List MenuRow) → (row : MenuRow) → (path : List ℕ) → Option (List ℕ)
match_row more row path =
    bind (match_name row.name path) (λ p. bind (read_duplicate p) (behind_row more row))

unfoldable pub match_rows : List MenuRow → (path : List ℕ) → Bool
match_rows [] path = is_end path
match_rows (row ∷ rows) path = test (match_row rows row path) (match_rows rows)

abbrev pub along : Option (List MenuRow) → (path : List ℕ) → Bool
along none path = false
along (some rs) path = match_rows rs path

unfoldable pub menu_row_matches : (rows : List MenuRow) (index : ℕ) (path : List ℕ) → Bool
menu_row_matches rows index path = along (chain 64 rows index []) path
