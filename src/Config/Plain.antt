-- ===== src/Config/Plain.antt =====
-- init_config() of common/lib/config.c on texts that none of its passes changes.
use limine_eucleia.Prelude.{
  ℕ, zero, suc, ◌*◌, ◌≤◌, ◌<◌, ◌≡◌, ◌∙◌, ap, refl, Bool, true, false, ◌&&◌, List, [], ◌∷◌, arith,
  ltb, leb, ◌==◌, if◌then◌else◌, length, get_or, Bool-cases, inl, inr, and-false, ok, ◌>>=◌,
}
use limine_eucleia.Config.Value.{separator, is_blank, count_blanks}
use limine_eucleia.Config.Strip.{is_return, count_skipped, skip_at, strip_turn, strip_loop, strip}
use limine_eucleia.Config.Macro.{Macro, is_usage, opening, load_step, load_loop, load_macros}
use limine_eucleia.Config.Expand.{expand_next, expand_step, expand_loop, expand_macros}

-- No carriage return, and no blank at the start or the end of a line.
abbrev pub Tidy : (starts : Bool) → List ℕ → Type 0
Tidy starts [] = Unit
Tidy starts (c ∷ s) =
    (is_return c ≡ false)
    × ((starts && is_blank c) ≡ false)
    × ((is_blank c && get_or s 0 0 == separator) ≡ false)
    × Tidy (c == separator) s

-- No macro is named.
abbrev pub NoDollar : List ℕ → Type 0
NoDollar [] = Unit
NoDollar (c ∷ s) = ((c == b'$') ≡ false) × NoDollar s

-- A run of blanks is not followed by the end of a line.
blanks-separator :
    (b : Bool) (c : ℕ) (s : List ℕ)
    → Tidy b (c ∷ s)
    → is_blank c ≡ true
    → (get_or s (count_blanks s) 0 == separator) ≡ false
unfolding count_blanks
blanks-separator b c [] h q = refl
blanks-separator b c (d ∷ s) h q = elim (Bool-cases (is_blank d)) [
  | inl r ↦ rw r (blanks-separator (c == separator) d s h.3 r)
  | inr r ↦ rw r (ground (arith, h.2, q))
]

run-separator :
    (b : Bool) (c : ℕ) (s : List ℕ)
    → Tidy b (c ∷ s)
    → (ltb 0 (count_blanks (c ∷ s)) && get_or (c ∷ s) (count_blanks (c ∷ s)) 0 == separator) ≡ false
unfolding count_blanks
run-separator b c s h = elim (Bool-cases (is_blank c)) [
  | inl r ↦ rw r (rw (blanks-separator b c s h r) (and-false (ltb 0 (suc (count_blanks s)))))
  | inr r ↦ rw r refl
]

second-false : (a b c : Bool) → (a && c) ≡ false → (a && b && c) ≡ false
second-false true true c h = h
second-false true false c h = refl
second-false false b c h = refl

count_skipped-Tidy : (b : Bool) (c : ℕ) (s : List ℕ) → Tidy b (c ∷ s) → count_skipped b (c ∷ s) ≡ 0
unfolding count_skipped
count_skipped-Tidy b c s h = rw (h.0, h.1) refl

skip_at-Tidy : (b : Bool) (c : ℕ) (s : List ℕ) → Tidy b (c ∷ s) → skip_at b (c ∷ s) ≡ 0
unfolding skip_at
skip_at-Tidy b c s h =
    let n = count_blanks (c ∷ s) in
    ap (λ t. if t then n else count_skipped b (c ∷ s))
      (second-false (ltb 0 n) (ltb n (length (c ∷ s))) (get_or (c ∷ s) n 0 == separator)
        (run-separator b c s h))
    ∙ count_skipped-Tidy b c s h

strip_loop-Tidy :
    (fuel : ℕ) (b : Bool) (s : List ℕ) → length s < fuel → Tidy b s → strip_loop fuel b s ≡ ok s
unfolding strip_loop
strip_loop-Tidy zero b s l h = absurd (omega (arith, l))
strip_loop-Tidy (suc fuel) b [] l h = refl
strip_loop-Tidy (suc fuel) b (c ∷ s) l h =
    ap (strip_turn (strip_loop fuel) b c s) (skip_at-Tidy b c s h)
    ∙ ap (λ r. r >>= λ out. ok (c ∷ out))
        (strip_loop-Tidy fuel (c == separator) s (omega (arith, l)) h.3)

pub strip-Tidy : (s : List ℕ) → Tidy true s → strip s ≡ ok s
unfolding strip
strip-Tidy s h = strip_loop-Tidy (suc (length s)) true s (omega arith) h

is_usage-NoDollar : (s : List ℕ) → NoDollar s → is_usage s ≡ false
is_usage-NoDollar [] h = refl
is_usage-NoDollar (c ∷ s) h = rw (h.0, and-false (leb 2 (suc (length s)))) refl

opens-none :
    (a u b v : Bool) (n : ℕ)
    → u ≡ false
    → v ≡ false
    → ◌≡◌ {A = ℕ} (if a && u then n else if b && v then 2 else 0) 0
opens-none a u b v n e f = rw (e, f, and-false a, and-false b) refl

opening-NoDollar :
    (first : Bool) (c : ℕ) (s : List ℕ) → NoDollar (c ∷ s) → opening first (c ∷ s) ≡ 0
unfolding opening
opening-NoDollar first c s h =
    opens-none (leb 3 (length (c ∷ s)) && c == separator) (is_usage s) first (is_usage (c ∷ s))
      (if first then 2 else 3) (is_usage-NoDollar s h.1) (is_usage-NoDollar (c ∷ s) h)

load_loop-NoDollar :
    (fuel : ℕ) (first : Bool) (macros : List Macro) (s : List ℕ)
    → length s < fuel
    → NoDollar s
    → load_loop fuel first macros s ≡ ok macros
unfolding load_loop
load_loop-NoDollar zero first macros s l h = absurd (omega (arith, l))
load_loop-NoDollar (suc fuel) first macros [] l h = refl
load_loop-NoDollar (suc fuel) first macros (c ∷ s) l h =
    ap (load_step (load_loop fuel false) macros c s) (opening-NoDollar first c s h)
    ∙ load_loop-NoDollar fuel false macros s (omega (arith, l)) h.1

pub load_macros-NoDollar :
    (macros : List Macro) (s : List ℕ) → NoDollar s → load_macros macros s ≡ ok macros
unfolding load_macros
load_macros-NoDollar macros s h = load_loop-NoDollar (suc (length s)) true macros s (omega arith) h

expand_loop-NoDollar :
    (fuel : ℕ) (first : Bool) (macros : List Macro) (room : ℕ) (s : List ℕ)
    → length s < fuel
    → length s ≤ room
    → NoDollar s
    → expand_loop fuel first macros room s ≡ ok s
unfolding expand_loop
expand_loop-NoDollar zero first macros room s l m h = absurd (omega (arith, l))
expand_loop-NoDollar (suc fuel) first macros room [] l m h = refl
expand_loop-NoDollar (suc fuel) first macros zero (c ∷ s) l m h = absurd (omega (arith, m))
expand_loop-NoDollar (suc fuel) first macros (suc room) (c ∷ s) l m h =
    ap (expand_step (expand_loop fuel false macros) macros (suc room) c s)
      (opening-NoDollar first c s h)
    ∙ ap (expand_next (expand_loop fuel false macros) macros (suc room) c s)
        (is_usage-NoDollar (c ∷ s) h)
    ∙ ap (λ r. r >>= λ out. ok (c ∷ out))
        (expand_loop-NoDollar fuel false macros room s (omega (arith, l)) (omega (arith, m)) h.1)

pub expand_macros-NoDollar :
    (macros : List Macro) (s : List ℕ) → NoDollar s → expand_macros macros s ≡ ok s
unfolding expand_macros
expand_macros-NoDollar macros s h =
    expand_loop-NoDollar (suc (length s)) true macros (length s * 4) s (omega arith) (omega arith) h
