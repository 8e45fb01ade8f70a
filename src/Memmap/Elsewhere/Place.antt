-- ===== src/Memmap/Elsewhere/Place.antt =====
-- elsewhere_append() and elsewhere_reserve_target() of common/lib/elsewhere.c.
use limine_eucleia.Prelude.{
  ℕ, zero, suc, ◌-◌, Bool, true, false, not, ◌&&◌, ◌||◌, Option, none, some, List, [], ◌∷◌, ◌++◌,
  ltb, leb, ◌==◌, if◌then◌else◌, length, Result, ok, panic, ◌>>=◌,
}
use limine_eucleia.Word.{word, checked_add, align_up}
use limine_eucleia.Memmap.Entry.{MemmapEntry, usable, bootloader_reclaimable}
use limine_eucleia.Memmap.Alloc.Range.{Pmm, alloc_range, with_memmap}

-- `struct elsewhere_range`.
pub record ElsewhereRange : Type 0 where
  pub elsewhere : ℕ
  pub target : ℕ
  pub length : ℕ

abbrev pub overlap_check : (base1 top1 base2 top2 : ℕ) → Bool
overlap_check base1 top1 base2 top2 = ltb base1 top2 && ltb base2 top1

abbrev pub memmap_type : ℕ → Bool
memmap_type type = type == usable || type == bootloader_reclaimable

-- 4 GiB.
abbrev pub low_limit : ℕ
low_limit = 0x1_0000_0000

-- UINT64_MAX, for no address.
abbrev pub no_address : ℕ
no_address = word - 1

abbrev pub better_of : (target len best base top : ℕ) → ℕ
better_of target len best base top =
    if leb top target
    then best
    else if ltb target base
    then (if ltb (top - base) len then best else if ltb base best then base else best)
    else if ltb top best
    then top
    else best

abbrev pub better : (target len best : ℕ) → MemmapEntry → ℕ
better target len best e =
    if not (memmap_type e.type) then best else elim (checked_add e.base e.length) [
      | none ↦ best
      | some top ↦
          if leb low_limit e.base
          then best
          else better_of target len best e.base (if ltb low_limit top then low_limit else top)
    ]

unfoldable pub best_candidate : (target len best : ℕ) → List MemmapEntry → ℕ
best_candidate target len best [] = best
best_candidate target len best (e ∷ m) = best_candidate target len (better target len best e) m

unfoldable pub next_memmap_candidate : List MemmapEntry → (target len : ℕ) → Option ℕ
next_memmap_candidate m target len =
    let best = best_candidate target len no_address m in
    if best == no_address then none else align_up best 4096

-- What the check of a target against one range comes to: the next range, `return false`, `goto retry`
-- at another target, or the search from low memory, if that is permitted and new.
pub data Step : Type 0 where
  next : Step
  refuse : Step
  retry_at : ℕ → Step
  wrap : Step

-- `goto retry` behind the top of a range.
abbrev pub behind : ℕ → Step
behind top = elim (align_up top 4096) [ none ↦ refuse | some t ↦ retry_at t ]

-- `memmap_alloc_range()` as a question: usable or reclaimable memory all over.
unfoldable pub available : Pmm → (target len : ℕ) → Result Bool
available p target len =
    alloc_range p target len bootloader_reclaimable usable false true false >>= λ r.
    if r.0
    then ok true
    else alloc_range p target len bootloader_reclaimable bootloader_reclaimable false true false
      >>= λ s. ok s.0

abbrev pub elsewhere_in_memory : Option ℕ → Step
elsewhere_in_memory none = wrap
elsewhere_in_memory (some t) = retry_at t

abbrev pub check_memory : Pmm → (target len : ℕ) → Result Step
check_memory p target len = available p target len >>= λ yes.
    if yes then ok next else ok (elsewhere_in_memory (next_memmap_candidate p.memmap target len))

-- The checks against a range at `base`, and then what follows.
abbrev pub check_against : (base len target t_top : ℕ) → Result Step → Result Step
check_against base len target t_top rest = elim (checked_add base len) [
  | none ↦ ok next
  | some top ↦ if overlap_check base top target t_top then ok (behind top) else rest
]

unfoldable pub check_range : Pmm → (target len : ℕ) → ElsewhereRange → Result Step
check_range p target len r = elim (checked_add target len) [
  | none ↦ ok refuse
  | some t_top ↦
      if ltb low_limit t_top
      then ok wrap
      else check_against r.target r.length target t_top
          (check_against r.elsewhere r.length target t_top (check_memory p target len))
]

abbrev pub go_on : Result Step → Step → Result Step
go_on rest next = rest
go_on rest refuse = ok refuse
go_on rest (retry_at t) = ok (retry_at t)
go_on rest wrap = ok wrap

unfoldable pub check_ranges : Pmm → (target len : ℕ) → List ElsewhereRange → Result Step
check_ranges p target len [] = ok next
check_ranges p target len (r ∷ rs) =
    check_range p target len r >>= go_on (check_ranges p target len rs)

abbrev pub Again : Type 0
Again = (wrapped : Bool) (target : ℕ) → Result (Option ℕ)

abbrev pub act : Again → (allow_wraparound wrapped : Bool) (target : ℕ) → Step → Result (Option ℕ)
act again allow wrapped target next = ok (some target)
act again allow wrapped target refuse = ok none
act again allow wrapped target (retry_at t) = again wrapped t
act again allow wrapped target wrap = if allow && not wrapped then again true 0x10_0000 else ok none

-- The target that is found, with so many tries left.
unfoldable pub find_target :
    (max_retries : ℕ)
    → Pmm
    → (ranges : List ElsewhereRange) (allow_wraparound : Bool) (len : ℕ) → Again
find_target zero p ranges allow len wrapped target = ok none
find_target (suc left) p ranges allow len wrapped target =
    check_ranges p target len ranges
    >>= act (find_target left p ranges allow len) allow wrapped target

unfoldable pub top_of : (top : ℕ) → List ElsewhereRange → ℕ
top_of top [] = top
top_of top (r ∷ rs) = elim (checked_add r.target r.length) [
  | none ↦ top_of top rs
  | some r_top ↦ top_of (if ltb top r_top then r_top else top) rs
]

-- A target of -1 stands for the top of all ranges.
unfoldable pub first_target : List ElsewhereRange → (target : ℕ) → Option ℕ
first_target ranges target =
    if target == no_address then align_up (top_of 0 ranges) 4096 else some target

-- The part of a usable entry within a range, as its base and length.
abbrev pub part_of : (base top : ℕ) → MemmapEntry → Option (ℕ × ℕ)
part_of base top e = if not (e.type == usable) then none else elim (checked_add e.base e.length) [
  | none ↦ none
  | some e_top ↦
      let o_base = if ltb e.base base then base else e.base in
      let o_top = if ltb top e_top then top else e_top in
      if ltb o_base o_top then some (o_base, o_top - o_base) else none
]

unfoldable pub parts : (room base top : ℕ) → List MemmapEntry → List (ℕ × ℕ)
parts room base top [] = []
parts zero base top (e ∷ m) = []
parts (suc room) base top (e ∷ m) = elim (part_of base top e) [
  | none ↦ parts (suc room) base top m
  | some x ↦ x ∷ parts room base top m
]

unfoldable pub reserve_parts : Pmm → List (ℕ × ℕ) → Result Pmm
reserve_parts p [] = ok p
reserve_parts p (x ∷ xs) =
    alloc_range p x.0 x.1 bootloader_reclaimable usable false false false >>= λ r.
    reserve_parts (with_memmap p r.1) xs

unfoldable pub elsewhere_reserve_target : Pmm → (base len : ℕ) → Result Pmm
elsewhere_reserve_target p base len = elim (checked_add base len) [
  | none ↦ ok p
  | some top ↦ reserve_parts p (parts 64 base top p.memmap)
]

pub record Appended : Type 0 where
  pub pmm : Pmm
  pub ranges : List ElsewhereRange
  pub at : ℕ

abbrev pub max_tries : ℕ
max_tries = 0x1_0000

-- Once the target is found.
abbrev pub add_range :
    Pmm → List ElsewhereRange → (ranges_max elsewhere len : ℕ) → Option ℕ → Result (Option Appended)
add_range p ranges ranges_max elsewhere len none = ok none
add_range p ranges ranges_max elsewhere len (some t) = elsewhere_reserve_target p t len >>= λ p'.
    if leb ranges_max (length ranges)
    then panic
    else ok (
        some (record {
          pmm = p';
          ranges = ranges ++ (record { elsewhere = elsewhere; target = t; length = len } ∷ []);
          at = t;
        }))

-- `ok none` is false; `at` is what is left in `*target`, which is not looked at behind a false.
unfoldable pub elsewhere_append :
    Pmm
    → (allow_wraparound : Bool) (ranges : List ElsewhereRange) (ranges_max elsewhere target len : ℕ)
    → Result (Option Appended)
elsewhere_append p allow ranges ranges_max elsewhere target len =
    elim (first_target ranges target) [
      | none ↦ ok none
      | some t ↦
          find_target max_tries p ranges allow len false t
          >>= add_range p ranges ranges_max elsewhere len
    ]
