-- ===== src/Config/Room.antt =====
-- The buffer of the expansion of macros in init_config() of common/lib/config.c, and its end.
use limine_eucleia.Prelude.{
  ℕ, zero, suc, ◌-◌, ◌*◌, ◌≤◌, ◌<◌, Bool, true, false, not, Option, none, some, List, [], ◌∷◌, ◌++◌,
  arith, ltb, ◌==◌, if◌then◌else◌, length, length-append, take, drop, get_or, Bool-cases, inl, inr,
  ok, panic, ◌>>=◌, Ends, Ends-bind, Ends-if,
}
use limine_eucleia.Config.Macro.{
  Macro, max_name, is_usage, opening, ends_value, ends_name, text_before, text_from, macro_value,
}
use limine_eucleia.Config.Expand.{
  is_close, value_end, definition_end, Expand, expand_usage, copy_one, expand_next, expand_behind,
  expand_step, expand_loop, expand_macros,
}

pub length-text_from : (p : ℕ → Bool) (s : List ℕ) → length (text_from p s) ≤ length s
unfolding text_from
length-text_from p [] = omega arith
length-text_from p (c ∷ s) = elim (Bool-cases (p c)) [
  | inl q ↦ rw q (omega arith)
  | inr q ↦ rw q (omega (arith, length-text_from p s))
]

pub length-drop : (n : ℕ) (s : List ℕ) → length (drop n s) ≤ length s
length-drop zero s = omega arith
length-drop (suc n) [] = omega arith
length-drop (suc n) (c ∷ s) = omega (arith, length-drop n s)

-- Texts that are no longer than this one.
abbrev Rest : List ℕ → Option (List ℕ) → Type 0
Rest s none = Unit
Rest s (some t) = length t ≤ length s

value_end-Rest : (s t : List ℕ) → length t ≤ length s → Ends (value_end t) (Rest s)
value_end-Rest s [] h = tt
value_end-Rest s (c ∷ t) h = h

definition_end-Rest : (s t : List ℕ) → length t ≤ length s → Ends (definition_end t) (Rest s)
definition_end-Rest s [] h = tt
definition_end-Rest s (c ∷ t) h =
    Ends-if (get_or t 0 0 == b'=') (value_end (text_from ends_value (drop 1 t))) (ok none) (Rest s)
      (λ q.
        value_end-Rest s (text_from ends_value (drop 1 t))
          (omega (arith, h, length-text_from ends_value (drop 1 t), length-drop 1 t)))
      (λ q. tt)

-- What the loop is to satisfy from a place on.
abbrev Fits : ℕ → List ℕ → Type 0
Fits room out = length out ≤ room

abbrev Bounded : Expand → List ℕ → Type 0
Bounded again s = (room : ℕ) (t : List ℕ) → length t ≤ length s → Ends (again room t) (Fits room)

expand_usage-Fits :
    (again : Expand) (macros : List Macro) (room : ℕ) (s text : List ℕ)
    → Bounded again s
    → length text ≤ length s
    → Ends (expand_usage again macros room text) (Fits room)
expand_usage-Fits again macros room s text h l =
    let name = take max_name (text_before ends_name text) in
    let rest = drop (length name) text in
    let value = macro_value macros name in
    let tail = again (room - length value) (drop 1 rest) >>= λ out. ok (value ++ out) in
    Ends-if (not (is_close (get_or rest 0 0))) panic
      (if ltb room (length value) then panic else tail) (Fits room) (λ q. tt)
      (λ q.
        Ends-if (ltb room (length value)) panic tail (Fits room) (λ q. tt)
          (λ small.
            Ends-bind (again (room - length value) (drop 1 rest)) (λ out. ok (value ++ out))
              (Fits (room - length value)) (Fits room)
              (h (room - length value) (drop 1 rest)
                (omega (arith, l, length-drop 1 rest, length-drop (length name) text)))
              (λ out p. ground (arith, length-append value out, p, small))))

copy_one-Fits :
    (again : Expand) (room c : ℕ) (s : List ℕ)
    → Bounded again s
    → Ends (copy_one again room c s) (Fits room)
copy_one-Fits again zero c s h = tt
copy_one-Fits again (suc room) c s h =
    Ends-bind (again room s) (λ out. ok (c ∷ out)) (Fits room) (Fits (suc room))
      (h room s (omega arith)) (λ out p. omega (arith, p))

expand_next-Fits :
    (again : Expand) (macros : List Macro) (room c : ℕ) (s : List ℕ) (b : Bool)
    → Bounded again s
    → Ends (expand_next again macros room c s b) (Fits room)
expand_next-Fits again macros room c s true h =
    expand_usage-Fits again macros room s (drop 1 s) h (length-drop 1 s)
expand_next-Fits again macros room c s false h = copy_one-Fits again room c s h

expand_behind-Fits :
    (again : Expand) (macros : List Macro) (room c : ℕ) (s : List ℕ)
    → Bounded again s
    → (o : Option (List ℕ)) → Rest s o
    → Ends (expand_behind again macros room c s o) (Fits room)
expand_behind-Fits again macros room c s h none p =
    expand_next-Fits again macros room c s (is_usage (c ∷ s)) h
expand_behind-Fits again macros room c s h (some t) p = h room t p

expand_step-Fits :
    (again : Expand) (macros : List Macro) (room c : ℕ) (s : List ℕ) (k : ℕ)
    → Bounded again s
    → Ends (expand_step again macros room c s k) (Fits room)
expand_step-Fits again macros room c s zero h =
    expand_next-Fits again macros room c s (is_usage (c ∷ s)) h
expand_step-Fits again macros room c s (suc k) h =
    Ends-bind (definition_end (text_from is_close (drop k s))) (expand_behind again macros room c s)
      (Rest s) (Fits room)
      (definition_end-Rest s (text_from is_close (drop k s))
        (omega (arith, length-text_from is_close (drop k s), length-drop k s)))
      (expand_behind-Fits again macros room c s h)

expand_loop-Fits :
    (fuel : ℕ) (first : Bool) (macros : List Macro) (room : ℕ) (s : List ℕ)
    → length s < fuel
    → Ends (expand_loop fuel first macros room s) (Fits room)
unfolding expand_loop
expand_loop-Fits zero first macros room s h = absurd (omega (arith, h))
expand_loop-Fits (suc fuel) first macros room [] h = omega arith
expand_loop-Fits (suc fuel) first macros room (c ∷ s) h =
    expand_step-Fits (expand_loop fuel false macros) macros room c s (opening first (c ∷ s))
      (λ r t l. expand_loop-Fits fuel false macros r t (omega (arith, h, l)))

-- The expansion of macros comes to an end on every text and list of macros, by a panic or with a
-- text of at most four times the size, which is what its buffer holds.
pub expand_macros-length :
    (macros : List Macro) (s : List ℕ)
    → Ends (expand_macros macros s) (λ out. length out ≤ length s * 4)
unfolding expand_macros
expand_macros-length macros s =
    expand_loop-Fits (suc (length s)) true macros (length s * 4) s (omega arith)
