-- ===== src/Config/Strip.antt =====
-- The pass over the blanks and carriage returns in init_config() of common/lib/config.c.
use limine_eucleia.Prelude.{
  ℕ, zero, suc, ◌≤◌, ◌<◌, ◌≡◌, refl, Bool, true, false, ◌&&◌, ◌||◌, List, [], ◌∷◌, arith, ltb,
  ltb→lt, ◌==◌, if◌then◌else◌, length, drop, get_or, Result, ok, out_of_fuel, ◌>>=◌, Returns,
  Returns-bind,
}
use limine_eucleia.Config.Value.{separator, is_blank, count_blanks}

abbrev pub is_return : ℕ → Bool
is_return c = c == b'\r'

-- The carriage returns, and at the start of a line also the blanks, that the text begins with.
unfoldable pub count_skipped : (starts : Bool) → List ℕ → ℕ
count_skipped starts [] = 0
count_skipped starts (c ∷ s) =
    if is_return c || (starts && is_blank c) then suc (count_skipped starts s) else 0

-- `skip` at one place.
unfoldable pub skip_at : (starts : Bool) → List ℕ → ℕ
skip_at starts s =
    let blanks = count_blanks s in
    if ltb 0 blanks && ltb blanks (length s) && get_or s blanks 0 == separator
    then blanks
    else count_skipped starts s

-- What follows at a place where so many characters are skipped, given the loop from there on: a skip
-- is followed by another look at the same place.
abbrev pub strip_turn :
    (again : Bool → List ℕ → Result (List ℕ)) (starts : Bool) (c : ℕ)
    → List ℕ
    → (skip : ℕ) → Result (List ℕ)
strip_turn again starts c s zero = again (c == separator) s >>= λ out. ok (c ∷ out)
strip_turn again starts c s (suc k) = again starts (drop k s)

-- The loop at one place; the flag tells whether a line begins there.
unfoldable pub strip_loop : (fuel : ℕ) (starts : Bool) → List ℕ → Result (List ℕ)
strip_loop zero starts s = out_of_fuel
strip_loop (suc fuel) starts [] = ok []
strip_loop (suc fuel) starts (c ∷ s) =
    strip_turn (strip_loop fuel) starts c s (skip_at starts (c ∷ s))

unfoldable pub strip : List ℕ → Result (List ℕ)
strip s = strip_loop (suc (length s)) true s

-- No carriage return, and no blank at the start of a line.
abbrev pub Stripped : (starts : Bool) → List ℕ → Type 0
Stripped starts [] = Unit
Stripped starts (c ∷ s) =
    (is_return c ≡ false) × ((starts && is_blank c) ≡ false) × Stripped (c == separator) s

length-drop : (n : ℕ) (s : List ℕ) → length (drop n s) ≤ length s
length-drop zero s = omega arith
length-drop (suc n) [] = omega arith
length-drop (suc n) (c ∷ s) = omega (arith, length-drop n s)

else-zero : (t : Bool) (n k : ℕ) → (t ≡ true → 0 < n) → (if t then n else k) ≡ 0 → k ≡ 0
else-zero true n k p e = absurd (omega (arith, p refl, e))
else-zero false n k p e = e

neither : (r w : Bool) (n : ℕ) → (if r || w then suc n else 0) ≡ 0 → (r ≡ false) × (w ≡ false)
neither true w n e = cc
neither false true n e = cc
neither false false n e = (refl, refl)

and-first : (a b : Bool) → (a && b) ≡ true → a ≡ true
and-first true b h = refl
and-first false b h = h

-- Where nothing is skipped, the character may stay.
skip_at-none :
    (b : Bool) (c : ℕ) (s : List ℕ)
    → skip_at b (c ∷ s) ≡ 0
    → (is_return c ≡ false) × ((b && is_blank c) ≡ false)
unfolding skip_at count_skipped
skip_at-none b c s h =
    let n = count_blanks (c ∷ s) in
    neither (is_return c) (b && is_blank c) (count_skipped b s) (
      else-zero (ltb 0 n && ltb n (length (c ∷ s)) && get_or (c ∷ s) n 0 == separator) n
        (count_skipped b (c ∷ s))
        (λ q. ltb→lt 0 n (
          and-first (ltb 0 n) (ltb n (length (c ∷ s)))
            (and-first (ltb 0 n && ltb n (length (c ∷ s))) (get_or (c ∷ s) n 0 == separator) q)))
        h)

turn-Stripped :
    (again : Bool → List ℕ → Result (List ℕ)) (b : Bool) (c : ℕ) (s : List ℕ) (k : ℕ)
    → skip_at b (c ∷ s) ≡ k
    → ((d : Bool) (t : List ℕ) → length t ≤ length s → Returns (again d t) (Stripped d))
    → Returns (strip_turn again b c s k) (Stripped b)
turn-Stripped again b c s zero e h =
    Returns-bind (again (c == separator) s) (λ out. ok (c ∷ out)) (Stripped (c == separator))
      (Stripped b) (h (c == separator) s (omega arith))
      (λ out p. ((skip_at-none b c s e).0, (skip_at-none b c s e).1, p))
turn-Stripped again b c s (suc k) e h = h b (drop k s) (length-drop k s)

strip_loop-Stripped :
    (fuel : ℕ) (b : Bool) (s : List ℕ)
    → length s < fuel
    → Returns (strip_loop fuel b s) (Stripped b)
unfolding strip_loop
strip_loop-Stripped zero b s h = absurd (omega (arith, h))
strip_loop-Stripped (suc fuel) b [] h = tt
strip_loop-Stripped (suc fuel) b (c ∷ s) h =
    turn-Stripped (strip_loop fuel) b c s (skip_at b (c ∷ s)) refl
      (λ d t l. strip_loop-Stripped fuel d t (omega (arith, h, l)))

-- The pass over blanks and carriage returns comes to an end on every text without a panic, and
-- what it leaves has no carriage return, and no blank at the start of a line.
pub strip-Stripped : (s : List ℕ) → Returns (strip s) (Stripped true)
unfolding strip
strip-Stripped s = strip_loop-Stripped (suc (length s)) true s (omega arith)
