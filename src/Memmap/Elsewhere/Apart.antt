-- ===== src/Memmap/Elsewhere/Apart.antt =====
-- What elsewhere_append() of common/lib/elsewhere.c makes sure of for the target that it finds.
use limine_eucleia.Prelude.{
  All, ℕ, zero, suc, ◌+◌, ◌≤◌, ◌<◌, ◌≡◌, ◌≢◌, ◌⊎◌, refl, Bool, true, false, not, ◌&&◌, Option, none,
  some, List, [], ◌∷◌, arith, ltb, ltb→lt, ◌==◌, Bool-cases, Option-cases, lt→ltb, inl, inr, Result,
  ok, Ends, Ends_mono, Ends-bind, Ends-if,
}
use mathlib.Core.Bool.{false≢true}
use limine_eucleia.Word.{word, align_up}
use limine_eucleia.Memmap.Entry.{usable, bootloader_reclaimable, hits}
use limine_eucleia.Memmap.Claim.Total.{inside}
use limine_eucleia.Memmap.Alloc.Range.{Pmm, alloc_range, holds_range}
use limine_eucleia.Memmap.Alloc.Claims.{holds_range-hits}
use limine_eucleia.Memmap.Elsewhere.Place.{
  ElsewhereRange, overlap_check, low_limit, next_memmap_candidate, Step, next, refuse, retry_at,
  wrap, behind, available, check_memory, elsewhere_in_memory, check_against, check_range, go_on,
  check_ranges, Again, act, find_target,
}

-- One of the two ranges ends where the other begins, or before.
abbrev pub Apart : (base1 top1 base2 top2 : ℕ) → Type 0
Apart base1 top1 base2 top2 = (top2 ≤ base1) ⊎ (top1 ≤ base2)

-- All of a range is usable memory, or all of it is reclaimable.
abbrev pub Present : Pmm → (target len : ℕ) → Type 0
Present p target len =
    ((a : ℕ) → inside target (target + len) a ≡ true → 0 < hits p.memmap a usable)
    ⊎ ((a : ℕ) → inside target (target + len) a ≡ true → 0 < hits p.memmap a bootloader_reclaimable)

-- A target in present memory below 4 GiB that lies apart from a range and from where that comes from.
pub record Clear (p : Pmm) (target len : ℕ) (r : ElsewhereRange) : Type 0 where
  pub low : target + len ≤ low_limit
  pub from_target : Apart r.target (r.target + r.length) target (target + len)
  pub from_source : Apart r.elsewhere (r.elsewhere + r.length) target (target + len)
  pub present : Present p target len

-- A range whose ends are representable.
abbrev pub Whole : ElsewhereRange → Type 0
Whole r = (r.target + r.length < word) × (r.elsewhere + r.length < word)

abbrev pub IfNext : Type 0 → Step → Type 0
IfNext P s = s ≡ next → P

behind-next : (top : ℕ) (P : Type 0) → IfNext P (behind top)
behind-next top P = elim (Option-cases (align_up top 4096)) [
  | inl e ↦ rw (e, behind) (λ h. cc)
  | inr q ↦ rw (q.1, behind) (λ h. cc)
]

overlap-Apart : (b1 t1 b2 t2 : ℕ) → overlap_check b1 t1 b2 t2 ≡ false → Apart b1 t1 b2 t2
overlap-Apart b1 t1 b2 t2 h = elim (Bool-cases (ltb b1 t2)) [
  | inl q ↦ inr (ground (arith, h, q))
  | inr q ↦ inl (ground (arith, q))
]

check_against-Apart :
    (base len target t_top : ℕ) (rest : Result Step) (P : Type 0)
    → base + len < word
    → Ends rest (IfNext P)
    → Ends
        (check_against base len target t_top rest)
        (IfNext (Apart base (base + len) target t_top × P))
check_against-Apart base len target t_top rest P w h =
    let fits : ltb (base + len) word ≡ true = lt→ltb (base + len) word w in
    rw (fits, check_against)
      (Ends-if (overlap_check base (base + len) target t_top) (ok (behind (base + len))) rest
        (IfNext (Apart base (base + len) target t_top × P))
        (λ q. behind-next (base + len) (Apart base (base + len) target t_top × P))
        (λ q.
          Ends_mono rest (IfNext P) (IfNext (Apart base (base + len) target t_top × P))
            (λ s f e. (overlap-Apart base (base + len) target t_top q, f e)) h))

-- The question for memory, which the map answers.
ask :
    (p : Pmm) (target len overlay : ℕ)
    → target + len < word
    → overlay ≢ 0
    → Ends (alloc_range p target len bootloader_reclaimable overlay false true false) (λ r.
      r.0 ≡ true → (a : ℕ) → inside target (target + len) a ≡ true → 0 < hits p.memmap a overlay)
unfolding alloc_range
ask p target len overlay w ne = elim (Bool-cases (len == 0)) [
  | inl z ↦ rw z (λ h a i. absurd (ground (arith, i, z)))
  | inr z ↦ rw z (
      rw (lt→ltb (target + len) word w)
        (elim (Bool-cases (holds_range overlay target (target + len) p.memmap)) [
          | inl c ↦ rw c (λ h a i. holds_range-hits overlay target (target + len) p.memmap a i ne c)
          | inr c ↦ rw c (λ h. absurd (false≢true h))
        ]))
]

module _ (p : Pmm) (target len : ℕ) where
  available-Present :
      target + len < word → Ends (available p target len) (λ b. b ≡ true → Present p target len)
  unfolding available
  available-Present w =
      Ends-bind (alloc_range p target len bootloader_reclaimable usable false true false) _
        (λ r.
          r.0 ≡ true → (a : ℕ) → inside target (target + len) a ≡ true → 0 < hits p.memmap a usable)
        (λ b. b ≡ true → Present p target len) (ask p target len usable w (omega arith))
        (λ r h.
          Ends-if r.0 (ok true) _ (λ b. b ≡ true → Present p target len) (λ e f. inl (h e))
            (λ e.
              Ends-bind
                (alloc_range p target len bootloader_reclaimable bootloader_reclaimable false true
                  false)
                _
                (λ r.
                  r.0 ≡ true
                  → (a : ℕ) → inside target (target + len) a ≡ true
                  → 0 < hits p.memmap a bootloader_reclaimable)
                (λ b. b ≡ true → Present p target len)
                (ask p target len bootloader_reclaimable w (omega arith)) (λ s g f. inr (g f))))

  elsewhere_in_memory-next : (o : Option ℕ) (P : Type 0) → IfNext P (elsewhere_in_memory o)
  elsewhere_in_memory-next none P h = cc
  elsewhere_in_memory-next (some t) P h = cc

  check_memory-Present :
      target + len < word → Ends (check_memory p target len) (IfNext (Present p target len))
  check_memory-Present w =
      Ends-bind (available p target len) _ (λ b. b ≡ true → Present p target len)
        (IfNext (Present p target len)) (available-Present w)
        (λ yes h.
          Ends-if yes (ok next) _ (IfNext (Present p target len)) (λ e f. h e)
            (λ e.
              elsewhere_in_memory-next (next_memmap_candidate p.memmap target len)
                (Present p target len)))

  check_range-Clear :
      (r : ElsewhereRange)
      → Whole r
      → Ends (check_range p target len r) (IfNext (Clear p target len r))
  unfolding check_range
  check_range-Clear r whole = elim (Bool-cases (ltb (target + len) word)) [
    | inr c ↦ rw (c, check_range) (λ h. cc)
    | inl c ↦
        rw (c, check_range)
          (Ends-if (ltb low_limit (target + len)) (ok wrap) _ (IfNext (Clear p target len r))
            (λ d h. cc)
            (λ d.
              Ends_mono
                (check_against r.target r.length target (target + len) (
                  check_against r.elsewhere r.length target (target + len)
                    (check_memory p target len)))
                (IfNext (
                  Apart r.target (r.target + r.length) target (target + len)
                  × (Apart r.elsewhere (r.elsewhere + r.length) target (target + len)
                      × Present p target len)))
                (IfNext (Clear p target len r))
                (λ s f e. record {
                  low = ground (arith, d);
                  from_target = (f e).0;
                  from_source = (f e).1.0;
                  present = (f e).1.1;
                })
                (check_against-Apart r.target r.length target (target + len) _ _ whole.0 (
                  check_against-Apart r.elsewhere r.length target (target + len) _ _ whole.1
                    (check_memory-Present (ltb→lt (target + len) word c))))))
  ]

  check_ranges-Clear :
      (ranges : List ElsewhereRange)
      → All Whole ranges
      → Ends (check_ranges p target len ranges) (IfNext (All (Clear p target len) ranges))
  unfolding check_ranges
  check_ranges-Clear [] w = λ e. tt
  check_ranges-Clear (r ∷ rs) w =
      Ends-bind (check_range p target len r) _ (IfNext (Clear p target len r))
        (IfNext (All (Clear p target len) (r ∷ rs))) (check_range-Clear r w.0)
        (go_on_lem r rs (check_ranges-Clear rs w.1))
    where
      go_on_lem :
          (r : ElsewhereRange) (rs : List ElsewhereRange)
          → Ends (check_ranges p target len rs) (IfNext (All (Clear p target len) rs))
          → (s : Step) → IfNext (Clear p target len r) s
          → Ends
              (go_on (check_ranges p target len rs) s)
              (IfNext (All (Clear p target len) (r ∷ rs)))
      go_on_lem r rs h next f =
          Ends_mono (check_ranges p target len rs) (IfNext (All (Clear p target len) rs))
            (IfNext (All (Clear p target len) (r ∷ rs))) (λ s g e. (f refl, g e)) h
      go_on_lem r rs h refuse f = λ e. cc
      go_on_lem r rs h (retry_at t) f = λ e. cc
      go_on_lem r rs h wrap f = λ e. cc

module _ (p : Pmm) (ranges : List ElsewhereRange) (allow : Bool) (len : ℕ)
    (w : All Whole ranges) where
  -- A target that is found is clear of all ranges.
  abbrev pub Found : Option ℕ → Type 0
  Found none = Unit
  Found (some t) = All (Clear p t len) ranges

  act-Found :
      (again : Again)
      → ((wrapped : Bool) (target : ℕ) → Ends (again wrapped target) Found)
      → (wrapped : Bool) (target : ℕ) (s : Step) → IfNext (All (Clear p target len) ranges) s
      → Ends (act again allow wrapped target s) Found
  act-Found again h wrapped target next f = f refl
  act-Found again h wrapped target refuse f = tt
  act-Found again h wrapped target (retry_at t) f = h wrapped t
  act-Found again h wrapped target wrap f =
      Ends-if (allow && not wrapped) (again true 0x10_0000) (ok none) Found (λ e. h true 0x10_0000)
        (λ e. tt)

  pub find_target-Found :
      (left : ℕ) (wrapped : Bool) (target : ℕ)
      → Ends (find_target left p ranges allow len wrapped target) Found
  unfolding find_target
  find_target-Found zero wrapped target = tt
  find_target-Found (suc left) wrapped target =
      Ends-bind (check_ranges p target len ranges) _ (IfNext (All (Clear p target len) ranges))
        Found (check_ranges-Clear p target len ranges w)
        (act-Found (find_target left p ranges allow len) (find_target-Found left) wrapped target)
