-- ===== src/Menu/Path.antt =====
-- menu_row_matches() of common/menu_model.c on the path of a row.
use limine_eucleia.Prelude.{
  ℕ, ◌+◌, ◌-◌, ◌*◌, ◌≤◌, ◌<◌, ◌≡◌, ◌↔◌, ◌∙◌, ap, sym, none, refl, true, false, some, List, [], ◌∷◌,
  ◌++◌, map, arith, ltb, ◌==◌, ==_iff, if◌then◌else◌, Bool-cases, inl, inr,
}
use limine_eucleia.Menu.Model.{MenuRow}
use limine_eucleia.Menu.Matches.{
  chain, is_special, bind, match_name, is_decimal, max_duplicate, read_digits, read_duplicate,
  behind_row, test, match_row, match_rows, along, menu_row_matches,
}
use limine_eucleia.Text.Numeral.{digit_char, value, Digits, le-value}

unfoldable pub escaped : List ℕ → List ℕ
escaped [] = []
escaped (c ∷ s) = if is_special c then b'\\' ∷ c ∷ escaped s else c ∷ escaped s

same-char : (c : ℕ) → (c == c) ≡ true
same-char c = (==_iff c c).1 refl

match_name-escaped : (name s : List ℕ) → match_name name (escaped name ++ s) ≡ some s
unfolding match_name escaped
match_name-escaped [] s = refl
match_name-escaped (c ∷ name) s = elim (Bool-cases (is_special c)) [
  | inl q ↦ rw q (rw (same-char c) (match_name-escaped name s))
  | inr q ↦ rw q (rw (same-char c) (match_name-escaped name s))
]

digit-decimal : (d : ℕ) → d < 10 → is_decimal (digit_char d) ≡ true
unfolding digit_char
digit-decimal d h = ground (arith, h)

digit-value : (d : ℕ) → d < 10 → digit_char d - b'0' ≡ d
unfolding digit_char
digit-value d h = ground (arith, h)

-- The text does not go on with a digit.
abbrev pub Stop : List ℕ → Type 0
Stop [] = Unit
Stop (c ∷ s) = is_decimal c ≡ false

-- The largest number that is read: a digit is added to at most (SIZE_MAX - 9) / 10.
abbrev pub max_number : ℕ
max_number = max_duplicate * 10 + 9

room : (n : ℕ) → n * 10 ≤ max_number → ltb max_duplicate n ≡ false
room n l = ground (arith, l)

read_digits-value :
    (n : ℕ) (ds s : List ℕ)
    → Digits 10 ds
    → value 10 n ds ≤ max_number
    → Stop s
    → read_digits n (map digit_char ds ++ s) ≡ some (value 10 n ds, s)
unfolding read_digits value
read_digits-value n [] [] h l p = refl
read_digits-value n [] (c ∷ s) h l p = rw p refl
read_digits-value n (d ∷ ds) s h l p = rw (digit-decimal d h.0) (
    rw (room n (omega (arith, l, le-value 10 (n * 10 + d) ds h.1)))
      (rw (digit-value d h.0) (read_digits-value (n * 10 + d) ds s h.1 l p)))

-- The number of a duplicate; no digits stand for no number.
abbrev pub duplicate_text : List ℕ → List ℕ
duplicate_text [] = []
duplicate_text (d ∷ ds) = b'#' ∷ map digit_char (d ∷ ds)

-- The text goes on with neither a digit nor a number sign.
abbrev Follows : List ℕ → Type 0
Follows [] = Unit
Follows (c ∷ s) = (is_decimal c ≡ false) × ((c == b'#') ≡ false)

Follows-Stop : (s : List ℕ) → Follows s → Stop s
Follows-Stop [] h = tt
Follows-Stop (c ∷ s) h = h.0

read_duplicate-text :
    (ds s : List ℕ)
    → Digits 10 ds
    → value 10 0 ds ≤ max_number
    → Follows s
    → read_duplicate (duplicate_text ds ++ s) ≡ some (value 10 0 ds, s)
unfolding value
read_duplicate-text [] [] h l p = refl
read_duplicate-text [] (c ∷ s) h l p = rw p.1 refl
read_duplicate-text (d ∷ ds) s h l p =
    rw (digit-decimal d h.0) (read_digits-value 0 (d ∷ ds) s h l (Follows-Stop s p))

-- Digits for each row, of a number that is not too large.
abbrev pub Labels : List MenuRow → List (List ℕ) → Type 0
Labels [] [] = Unit
Labels [] (ds ∷ dss) = ⊥
Labels (row ∷ rows) [] = ⊥
Labels (row ∷ rows) (ds ∷ dss) = Digits 10 ds × (value 10 0 ds ≤ max_number) × Labels rows dss

-- The digits of each row spell its duplicate.
abbrev pub Numbered : List MenuRow → List (List ℕ) → Type 0
Numbered [] dss = Unit
Numbered (row ∷ rows) [] = ⊥
Numbered (row ∷ rows) (ds ∷ dss) = (value 10 0 ds ≡ row.duplicate) × Numbered rows dss

abbrev pub slashed : (more : List MenuRow) → List ℕ → List ℕ
slashed [] s = s
slashed (x ∷ xs) s = b'/' ∷ s

-- The path of a row, given the rows from the top down to it and the digits of their duplicates.
unfoldable pub path_text : List MenuRow → List (List ℕ) → List ℕ
path_text [] dss = []
path_text (row ∷ rows) [] = []
path_text (row ∷ rows) (ds ∷ dss) =
    escaped row.name ++ (duplicate_text ds ++ slashed rows (path_text rows dss))

slashed-Follows :
    (rows : List MenuRow) (dss : List (List ℕ)) → Follows (slashed rows (path_text rows dss))
unfolding path_text
slashed-Follows [] dss = tt
slashed-Follows (x ∷ xs) dss = (refl, refl)

behind_row-slashed :
    (rows : List MenuRow) (row : MenuRow) (s : List ℕ) (n : ℕ)
    → behind_row rows row (n, slashed rows s) ≡ (if n == row.duplicate then some s else none)
behind_row-slashed [] row s n = refl
behind_row-slashed (x ∷ xs) row s n = refl

match_row-text :
    (rows : List MenuRow) (row : MenuRow) (ds s : List ℕ)
    → Digits 10 ds
    → value 10 0 ds ≤ max_number
    → Follows (slashed rows s)
    → match_row rows row (escaped row.name ++ (duplicate_text ds ++ slashed rows s))
      ≡ (if value 10 0 ds == row.duplicate then some s else none)
match_row-text rows row ds s h l p =
    ap (λ o. bind o (λ q. bind (read_duplicate q) (behind_row rows row)))
      (match_name-escaped row.name (duplicate_text ds ++ slashed rows s))
    ∙ ap (λ o. bind o (behind_row rows row)) (read_duplicate-text ds (slashed rows s) h l p)
    ∙ behind_row-slashed rows row s (value 10 0 ds)

match_rows-text :
    (rows : List MenuRow) (dss : List (List ℕ))
    → Labels rows dss
    → (match_rows rows (path_text rows dss) ≡ true) ↔ Numbered rows dss
unfolding match_rows path_text
match_rows-text [] [] h = (λ e. tt, λ n. refl)
match_rows-text [] (ds ∷ dss) h = absurd h
match_rows-text (row ∷ rows) [] h = absurd h
match_rows-text (row ∷ rows) (ds ∷ dss) h =
    let rest = path_text rows dss in
    let step = match_row-text rows row ds rest h.0 h.1 (slashed-Follows rows dss) in
    let again = match_rows-text rows dss h.2 in
    elim (Bool-cases (value 10 0 ds == row.duplicate)) [
      | inl q ↦
          let run : match_rows (row ∷ rows) (path_text (row ∷ rows) (ds ∷ dss))
              ≡ match_rows rows rest =
            ap (λ o. test o (match_rows rows)) (step ∙ ap (λ b. if b then some rest else none) q) in
          (
            λ e. ((==_iff (value 10 0 ds) (row.duplicate)).0 q, again.0 (sym run ∙ e)),
            λ n. run ∙ again.1 n.1,
          )
      | inr q ↦
          let run : match_rows (row ∷ rows) (path_text (row ∷ rows) (ds ∷ dss)) ≡ false =
            ap (λ o. test o (match_rows rows)) (step ∙ ap (λ b. if b then some rest else none) q) in
          (
            λ e. absurd (cc (e, run)),
            λ n. absurd (cc ((==_iff (value 10 0 ds) (row.duplicate)).1 n.0, q)),
          )
    ]

-- A row is matched by its path, and by no other number of the same names.
pub menu_row_matches-path_text :
    (rows : List MenuRow) (index : ℕ) (line : List MenuRow) (dss : List (List ℕ))
    → chain 64 rows index [] ≡ some line
    → Labels line dss
    → (menu_row_matches rows index (path_text line dss) ≡ true) ↔ Numbered line dss
unfolding menu_row_matches
menu_row_matches-path_text rows index line dss e h =
    let run = ap (λ o. along o (path_text line dss)) e in
    let same = match_rows-text line dss h in (λ p. same.0 (sym run ∙ p), λ n. run ∙ same.1 n)
