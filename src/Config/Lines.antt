-- ===== src/Config/Lines.antt =====
-- The lines of a configuration, as a description of what the lookups of common/lib/config.c find.
use limine_eucleia.Prelude.{
  ℕ, suc, ◌≡◌, ◌≢◌, ap, refl, Bool, true, false, ◌&&◌, List, [], ◌∷◌, arith, ◌==◌, if◌then◌else◌,
  length, take, drop, Bool-cases, inl, inr,
}
use limine_eucleia.Text.Chars.{tolower}
use limine_eucleia.Text.Strings.{strncasecmp}
use limine_eucleia.Config.Value.{separator, is_key, skip_blanks, line, max_value}

-- The lines behind the first one.
unfoldable pub more : List ℕ → List (List ℕ)
more [] = []
more (c ∷ s) = if c == separator then line s ∷ more s else more s

abbrev pub lines : List ℕ → List (List ℕ)
lines s = line s ∷ more s

-- The lines from here on: this one if it begins here.
abbrev pub ahead : Bool → List ℕ → List (List ℕ)
ahead true s = lines s
ahead false s = more s

pub ahead-next : (c : ℕ) (s : List ℕ) → ahead (c == separator) s ≡ more (c ∷ s)
unfolding more
ahead-next c s = ground arith

-- A key that lies in one line.
abbrev pub OneLine : List ℕ → Type 0
OneLine [] = Unit
OneLine (k ∷ key) = (k ≢ separator) × OneLine key

-- Whether a line is the key, in any case, a colon and a value.
unfoldable pub keyed : (key l : List ℕ) → Bool
keyed [] [] = false
keyed [] (c ∷ l) = c == b':'
keyed (k ∷ key) [] = false
keyed (k ∷ key) (c ∷ l) = (tolower c == tolower k) && keyed key l

-- The value of a line: behind the colon and blanks, cut to what a buffer holds.
abbrev pub line_value : (key l : List ℕ) → List ℕ
line_value key l = take max_value (skip_blanks (drop (suc (length key)) l))

-- The values of the lines that have the key.
unfoldable pub values : (key : List ℕ) → List (List ℕ) → List (List ℕ)
values key [] = []
values key (l ∷ ls) = if keyed key l then line_value key l ∷ values key ls else values key ls

pub is_key-keyed : (key s : List ℕ) → is_key key s ≡ keyed key s
unfolding is_key keyed strncasecmp
is_key-keyed [] [] = refl
is_key-keyed [] (c ∷ s) = refl
is_key-keyed (k ∷ key) [] = refl
is_key-keyed (k ∷ key) (c ∷ s) = elim (Bool-cases (tolower c == tolower k)) [
  | inl q ↦ rw q (is_key-keyed key s)
  | inr q ↦ ground (arith, q)
]

separator-tolower :
    (c k : ℕ) → (c == separator) ≡ true → k ≢ separator → (tolower c == tolower k) ≡ false
unfolding tolower
separator-tolower c k q n = ground (arith, q, n)

pub keyed-line : (key s : List ℕ) → OneLine key → keyed key (line s) ≡ keyed key s
unfolding keyed line
keyed-line [] [] o = refl
keyed-line [] (c ∷ s) o = ground arith
keyed-line (k ∷ key) [] o = refl
keyed-line (k ∷ key) (c ∷ s) o = elim (Bool-cases (c == separator)) [
  | inl q ↦ rw q (rw (separator-tolower c k q o.0) refl)
  | inr q ↦ rw q (ap (λ b. (tolower c == tolower k) && b) (keyed-line key s o.1))
]

pub line-skip_blanks : (s : List ℕ) → line (skip_blanks s) ≡ skip_blanks (line s)
unfolding line skip_blanks
line-skip_blanks [] = refl
line-skip_blanks (c ∷ s) = ground (arith, line-skip_blanks s)

-- Behind the key and the colon the line goes on.
pub line-drop :
    (key s : List ℕ)
    → OneLine key
    → keyed key s ≡ true
    → line (drop (suc (length key)) s) ≡ drop (suc (length key)) (line s)
unfolding line keyed
line-drop [] [] o h = refl
line-drop [] (c ∷ s) o h = ground (arith, h)
line-drop (k ∷ key) [] o h = cc
line-drop (k ∷ key) (c ∷ s) o h = elim (Bool-cases (c == separator)) [
  | inl q ↦ absurd (ground (arith, h, separator-tolower c k q o.0))
  | inr q ↦ rw q (line-drop key s o.1 (ground (arith, h)))
]
