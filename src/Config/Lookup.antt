-- ===== src/Config/Lookup.antt =====
-- config_get_value() of common/lib/config.c against the lines of the configuration.
use limine_eucleia.Prelude.{
  ℕ, zero, suc, ◌≡◌, ◌∙◌, ap, sym, refl, Bool, true, false, none, some, List, [], ◌∷◌, ◌==◌, length,
  take, drop, get_elem?, Bool-cases, inl, inr, suc-nonzero, suc-minus,
}
use limine_eucleia.Config.Value.{
  Config, separator, is_key, skip_blanks, line, max_value, read_value, value_loop, search, chosen,
  found_value, config_get_value,
}
use limine_eucleia.Config.Lines.{
  more, lines, ahead, ahead-next, OneLine, keyed, line_value, values, is_key-keyed, keyed-line,
  line-skip_blanks, line-drop,
}

read_value-line_value :
    (key : List ℕ) (i : ℕ) (s : List ℕ)
    → OneLine key
    → keyed key s ≡ true
    → (read_value key i s).value ≡ line_value key (line s)
unfolding read_value
read_value-line_value key i s o h =
    ap (take max_value)
      (line-skip_blanks (drop (suc (length key)) s) ∙ ap skip_blanks (line-drop key s o h))

keyed-[] : (key : List ℕ) → keyed key [] ≡ false
unfolding keyed
keyed-[] [] = refl
keyed-[] (k ∷ key) = refl

values-[] : (key : List ℕ) → values key (lines []) ≡ []
unfolding values line more
values-[] key = rw (keyed-[] key) refl

-- One place of the loop, where no line begins.
loop-inside :
    (key : List ℕ) (index i c : ℕ) (s : List ℕ)
    → value_loop key false index i (c ∷ s) ≡ value_loop key (c == separator) index (suc i) s
unfolding value_loop
loop-inside key index i c s = elim (Bool-cases (is_key key (c ∷ s))) [
  | inl h ↦ rw h refl
  | inr h ↦ rw h refl
]

-- One place of the loop, where a line without the key begins.
loop-miss :
    (key : List ℕ) (index i c : ℕ) (s : List ℕ)
    → is_key key (c ∷ s) ≡ false
    → value_loop key true index i (c ∷ s) ≡ value_loop key (c == separator) index (suc i) s
unfolding value_loop
loop-miss key index i c s h = rw h refl

-- One place of the loop, where the line that is wanted begins.
loop-hit :
    (key : List ℕ) (i c : ℕ) (s : List ℕ)
    → is_key key (c ∷ s) ≡ true
    → value_loop key true 0 i (c ∷ s) ≡ some (read_value key i (c ∷ s))
unfolding value_loop
loop-hit key i c s h = rw h refl

-- One place of the loop, where an earlier line with the key begins.
loop-skip :
    (key : List ℕ) (index i c : ℕ) (s : List ℕ)
    → is_key key (c ∷ s) ≡ true
    → value_loop key true (suc index) i (c ∷ s) ≡ value_loop key (c == separator) index (suc i) s
unfolding value_loop
loop-skip key index i c s h = rw (h, suc-nonzero index, suc-minus index) refl

values-hit :
    (key l : List ℕ) (ls : List (List ℕ))
    → keyed key l ≡ true
    → values key (l ∷ ls) ≡ line_value key l ∷ values key ls
unfolding values
values-hit key l ls h = rw h refl

values-miss :
    (key l : List ℕ) (ls : List (List ℕ))
    → keyed key l ≡ false
    → values key (l ∷ ls) ≡ values key ls
unfolding values
values-miss key l ls h = rw h refl

loop-end : (key : List ℕ) (b : Bool) (index i : ℕ) → value_loop key b index i [] ≡ none
unfolding value_loop
loop-end key b index i = refl

values-none : (key : List ℕ) → values key (more []) ≡ []
unfolding values more
values-none key = refl

module _ (key : List ℕ) (o : OneLine key) where
  keyed-here : (s : List ℕ) (b : Bool) → is_key key s ≡ b → keyed key (line s) ≡ b
  keyed-here s b h = keyed-line key s o ∙ sym (is_key-keyed key s) ∙ h

  value_loop-values :
      (starts : Bool) (index i : ℕ) (s : List ℕ)
      → found_value (value_loop key starts index i s)
        ≡ get_elem? (values key (ahead starts s)) index
  value_loop-values true index i [] =
      ap found_value (loop-end key true index i)
      ∙ ap (λ vs. get_elem? vs index) (sym (values-[] key))
  value_loop-values false index i [] =
      ap found_value (loop-end key false index i)
      ∙ ap (λ vs. get_elem? vs index) (sym (values-none key))
  value_loop-values false index i (c ∷ s) =
      ap found_value (loop-inside key index i c s)
      ∙ value_loop-values (c == separator) index (suc i) s
      ∙ ap (λ ls. get_elem? (values key ls) index) (ahead-next c s)
  value_loop-values true zero i (c ∷ s) = elim (Bool-cases (is_key key (c ∷ s))) [
    | inl h ↦
        ap found_value (loop-hit key i c s h)
        ∙ ap some (read_value-line_value key i (c ∷ s) o (sym (is_key-keyed key (c ∷ s)) ∙ h))
        ∙ ap (λ vs. get_elem? vs 0)
            (sym (values-hit key (line (c ∷ s)) (more (c ∷ s)) (keyed-here (c ∷ s) true h)))
    | inr h ↦
        ap found_value (loop-miss key 0 i c s h)
        ∙ value_loop-values (c == separator) 0 (suc i) s
        ∙ ap (λ ls. get_elem? (values key ls) 0) (ahead-next c s)
        ∙ ap (λ vs. get_elem? vs 0)
            (sym (values-miss key (line (c ∷ s)) (more (c ∷ s)) (keyed-here (c ∷ s) false h)))
  ]
  value_loop-values true (suc index) i (c ∷ s) = elim (Bool-cases (is_key key (c ∷ s))) [
    | inl h ↦
        ap found_value (loop-skip key index i c s h)
        ∙ value_loop-values (c == separator) index (suc i) s
        ∙ ap (λ ls. get_elem? (values key ls) index) (ahead-next c s)
        ∙ ap (λ vs. get_elem? vs (suc index))
            (sym (values-hit key (line (c ∷ s)) (more (c ∷ s)) (keyed-here (c ∷ s) true h)))
    | inr h ↦
        ap found_value (loop-miss key (suc index) i c s h)
        ∙ value_loop-values (c == separator) (suc index) (suc i) s
        ∙ ap (λ ls. get_elem? (values key ls) (suc index)) (ahead-next c s)
        ∙ ap (λ vs. get_elem? vs (suc index))
            (sym (values-miss key (line (c ∷ s)) (more (c ∷ s)) (keyed-here (c ∷ s) false h)))
  ]

-- In a ready configuration, and for a key without a newline, config_get_value() of a text finds,
-- at each index, what stands at that index among the values of those lines that begin with the
-- key, in any case, and a colon: what follows the colon and its blanks, cut to 4095 characters;
-- and nothing where there are fewer such lines.
pub config_get_value-lines :
    (st : Config) (s : List ℕ) (index : ℕ) (key : List ℕ)
    → st.config_ready ≡ true
    → OneLine key
    → config_get_value st (some s) index key ≡ get_elem? (values key (lines s)) index
unfolding config_get_value chosen search
config_get_value-lines st s index key r o = rw r (value_loop-values key o true index 0 s)
