-- ===== src/Config/Sections.antt =====
-- The entries of a configuration in terms of its lines, as a description of what
-- config_get_entry_name() and config_get_entry() of common/lib/config.c find.
use limine_eucleia.Prelude.{
  ℕ, zero, suc, ◌≡◌, ◌∙◌, ap, sym, subst, refl, Bool, true, false, ◌&&◌, Option, none, some, List,
  [], ◌∷◌, ◌++◌, arith, ◌==◌, ==_iff, if◌then◌else◌, length, drop, get_elem?, ◌<◌, Bool-cases, inl,
  inr, and-true, and-false, suc-nonzero, suc-minus,
}
use limine_eucleia.Config.Value.{Config, separator, line}
use limine_eucleia.Config.Lines.{more, lines, ahead, ahead-next}
use limine_eucleia.Config.Entry.{
  is_slash, find_entry, config_get_entry_name, config_get_entry, entry_name, line_end, entry_body,
  body_of,
}

unfoldable pub is_entry : List ℕ → Bool
is_entry [] = false
is_entry (c ∷ l) = is_slash c

-- The lines before that of the next entry, each behind a separator.
unfoldable pub body_lines : List (List ℕ) → List ℕ
body_lines [] = []
body_lines (l ∷ ls) = separator ∷ (if is_entry l then [] else l ++ body_lines ls)

pub record Section : Type 0 where
  pub name : List ℕ
  pub body : List ℕ

unfoldable pub sections : List (List ℕ) → List Section
sections [] = []
sections (l ∷ ls) =
    if is_entry l then record { name = l; body = body_lines ls } ∷ sections ls else sections ls

-- The text of a configuration from its next line on.
abbrev pub body_from : Bool → List ℕ → List ℕ
body_from true s = if is_entry (line s) then [] else line s ++ body_lines (more s)
body_from false s = line s ++ body_lines (more s)

separator-slash : (c : ℕ) → (c == separator) ≡ true → is_slash c ≡ false
separator-slash c q = ground (arith, q)

entry_body-lines : (b : Bool) (s : List ℕ) → entry_body b s ≡ body_from b s
unfolding entry_body line more body_lines is_entry
entry_body-lines false [] = refl
entry_body-lines true [] = refl
entry_body-lines false (c ∷ s) = elim (Bool-cases (c == separator)) [
  | inl q ↦
      rw (and-false (is_slash c), q)
        (ap (c ∷◌) (entry_body-lines true s)
          ∙ ap (λ d. d ∷ body_from true s) ((==_iff c separator).0 q))
  | inr q ↦ rw (and-false (is_slash c), q) (ap (c ∷◌) (entry_body-lines false s))
]
entry_body-lines true (c ∷ s) = elim (Bool-cases (c == separator)) [
  | inl q ↦
      rw (and-true (is_slash c), separator-slash c q, q)
        (ap (c ∷◌) (entry_body-lines true s)
          ∙ ap (λ d. d ∷ body_from true s) ((==_iff c separator).0 q))
  | inr q ↦ elim (Bool-cases (is_slash c)) [
    | inl h ↦ rw (and-true (is_slash c), q, h) refl
    | inr h ↦ rw (and-true (is_slash c), q, h) (ap (c ∷◌) (entry_body-lines false s))
  ]
]

-- The section that begins with a text.
abbrev pub section_of : Option (List ℕ) → Option Section
section_of none = none
section_of (some s) = some (record { name = line s; body = body_lines (more s) })

is_entry-line : (c : ℕ) (s : List ℕ) → is_entry (line (c ∷ s)) ≡ is_slash c
unfolding is_entry line
is_entry-line c s = ground arith

find-hit : (c : ℕ) (s : List ℕ) → is_slash c ≡ true → find_entry true 0 (c ∷ s) ≡ some (c ∷ s)
unfolding find_entry
find-hit c s h = rw (and-true (is_slash c), h) refl

pub find-skip :
    (n c : ℕ) (s : List ℕ)
    → is_slash c ≡ true
    → find_entry true (suc n) (c ∷ s) ≡ find_entry (c == separator) n s
unfolding find_entry
find-skip n c s h = rw (and-true (is_slash c), h, suc-nonzero n, suc-minus n) refl

pub find-miss :
    (b : Bool) (n c : ℕ) (s : List ℕ)
    → (is_slash c && b) ≡ false
    → find_entry b n (c ∷ s) ≡ find_entry (c == separator) n s
unfolding find_entry
find-miss b n c s h = rw h refl

sections-hit :
    (l : List ℕ) (ls : List (List ℕ))
    → is_entry l ≡ true
    → sections (l ∷ ls) ≡ record { name = l; body = body_lines ls } ∷ sections ls
unfolding sections
sections-hit l ls h = rw h refl

sections-miss :
    (l : List ℕ) (ls : List (List ℕ)) → is_entry l ≡ false → sections (l ∷ ls) ≡ sections ls
unfolding sections
sections-miss l ls h = rw h refl

sections-end :
    (b : Bool) (n : ℕ) → section_of (find_entry b n []) ≡ get_elem? (sections (ahead b [])) n
unfolding find_entry sections is_entry line more
sections-end true n = refl
sections-end false n = refl

pub find_entry-sections :
    (b : Bool) (n : ℕ) (s : List ℕ)
    → section_of (find_entry b n s) ≡ get_elem? (sections (ahead b s)) n
find_entry-sections b n [] = sections-end b n
find_entry-sections false n (c ∷ s) =
    ap section_of (find-miss false n c s (and-false (is_slash c)))
    ∙ find_entry-sections (c == separator) n s
    ∙ ap (λ ls. get_elem? (sections ls) n) (ahead-next c s)
find_entry-sections true zero (c ∷ s) = elim (Bool-cases (is_slash c)) [
  | inl h ↦
      ap section_of (find-hit c s h)
      ∙ ap (λ ls. get_elem? ls 0)
          (sym (sections-hit (line (c ∷ s)) (more (c ∷ s)) (is_entry-line c s ∙ h)))
  | inr h ↦
      ap section_of (find-miss true 0 c s (and-true (is_slash c) ∙ h))
      ∙ find_entry-sections (c == separator) 0 s
      ∙ ap (λ ls. get_elem? (sections ls) 0) (ahead-next c s)
      ∙ ap (λ ls. get_elem? ls 0)
          (sym (sections-miss (line (c ∷ s)) (more (c ∷ s)) (is_entry-line c s ∙ h)))
]
find_entry-sections true (suc n) (c ∷ s) = elim (Bool-cases (is_slash c)) [
  | inl h ↦
      ap section_of (find-skip n c s h)
      ∙ find_entry-sections (c == separator) n s
      ∙ ap (λ ls. get_elem? (sections ls) n) (ahead-next c s)
      ∙ ap (λ ls. get_elem? ls (suc n))
          (sym (sections-hit (line (c ∷ s)) (more (c ∷ s)) (is_entry-line c s ∙ h)))
  | inr h ↦
      ap section_of (find-miss true (suc n) c s (and-true (is_slash c) ∙ h))
      ∙ find_entry-sections (c == separator) (suc n) s
      ∙ ap (λ ls. get_elem? (sections ls) (suc n)) (ahead-next c s)
      ∙ ap (λ ls. get_elem? ls (suc n))
          (sym (sections-miss (line (c ∷ s)) (more (c ∷ s)) (is_entry-line c s ∙ h)))
]

-- The section, split into what the two functions return.
abbrev pub name_of : Option Section → Option (List ℕ)
name_of none = none
name_of (some x) = some x.name

entry_name-section : (o : Option (List ℕ)) → entry_name o ≡ name_of (section_of o)
entry_name-section none = refl
entry_name-section (some s) = refl

abbrev pub Ready : Config → List ℕ → Type 0
Ready st s = (st.config_ready ≡ true) × (st.config_addr ≡ some s)

-- In a ready configuration config_get_entry_name() returns, at each index, the line at that
-- index among those that begin with a slash, and nothing where there are fewer.
pub config_get_entry_name-sections :
    (st : Config) (s : List ℕ) (index : ℕ)
    → Ready st s
    → config_get_entry_name st index ≡ name_of (get_elem? (sections (lines s)) index)
unfolding config_get_entry_name
config_get_entry_name-sections st s index r =
    rw (r.0, r.1)
      (entry_name-section (find_entry true index s) ∙ ap name_of (find_entry-sections true index s))

separator-line : (c : ℕ) (s : List ℕ) → (c == separator) ≡ true → line (c ∷ s) ≡ []
unfolding line
separator-line c s q = rw q refl

more-inside : (c : ℕ) (s : List ℕ) → (c == separator) ≡ false → more (c ∷ s) ≡ more s
unfolding more
more-inside c s q = rw q refl

lines-end : entry_body false [] ≡ body_lines (more [])
unfolding entry_body body_lines more
lines-end = refl

line_end-lines : (s : List ℕ) → entry_body false (line_end s) ≡ body_lines (more s)
unfolding line_end
line_end-lines [] = lines-end
line_end-lines (c ∷ s) = elim (Bool-cases (c == separator)) [
  | inl q ↦ rw q (
      entry_body-lines false (c ∷ s)
      ∙ ap (λ l. l ++ body_lines (more (c ∷ s))) (separator-line c s q))
  | inr q ↦ rw q (line_end-lines s ∙ ap body_lines (sym (more-inside c s q)))
]

-- Two characters further on the line goes on, where it has them.
more-drop : (s : List ℕ) → 1 < length (line s) → more (drop 2 s) ≡ more s
unfolding line more
more-drop [] h = absurd (omega (arith, h))
more-drop (c ∷ []) h = ground (arith, h)
more-drop (c ∷ d ∷ s) h = ground (arith, h)

abbrev name_length : Option Section → ℕ
name_length none = 0
name_length (some x) = length x.name

abbrev body_field : Option Section → Option (List ℕ)
body_field none = none
body_field (some x) = some x.body

body_of-section :
    (o : Option (List ℕ)) (x : Section)
    → section_of o ≡ some x
    → 1 < length x.name
    → body_of o ≡ some x.body
body_of-section none x e h = cc
body_of-section (some t) x e h =
    ap some (
      line_end-lines (drop 2 t)
      ∙ ap body_lines (more-drop t (subst (1 <◌) (sym (ap name_length e)) h)))
    ∙ ap body_field e

-- In a ready configuration, where the section at an index has a name of at least two characters,
-- config_get_entry() returns its body: the lines between its name and the next line that begins
-- with a slash.
pub config_get_entry-sections :
    (st : Config) (s : List ℕ) (index : ℕ) (x : Section)
    → Ready st s
    → get_elem? (sections (lines s)) index ≡ some x
    → 1 < length x.name
    → config_get_entry st index ≡ some x.body
unfolding config_get_entry
config_get_entry-sections st s index x r e h =
    rw (r.0, r.1)
      (body_of-section (find_entry true index s) x (find_entry-sections true index s ∙ e) h)
