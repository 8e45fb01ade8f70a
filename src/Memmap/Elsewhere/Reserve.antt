-- ===== src/Memmap/Elsewhere/Reserve.antt =====
-- What elsewhere_reserve_target() of common/lib/elsewhere.c leaves of the memory map, and
-- elsewhere_append() as a whole.
use limine_eucleia.Prelude.{
  All, ℕ, ◌+◌, ◌≤◌, ◌≡◌, refl, Bool, false, Option, none, some, List, [], ◌∷◌, ◌++◌, arith, ltb,
  leb, ◌==◌, length, length-append, Bool-cases, inl, inr, ok, panic, ◌>>=◌, Ends, Ends_mono,
  Ends-bind, Ends-if, sum_by,
}
use limine_eucleia.Word.{word}
use limine_eucleia.Memmap.Entry.{MemmapEntry, usable, bootloader_reclaimable, hits, overflows}
use limine_eucleia.Memmap.Claim.Total.{inside}
use limine_eucleia.Memmap.Alloc.Range.{Pmm, alloc_range, with_memmap}
use limine_eucleia.Memmap.Alloc.Claims.{Outcome, alloc_range-Outcome}
use limine_eucleia.Memmap.Elsewhere.Place.{
  ElsewhereRange, parts, reserve_parts, elsewhere_reserve_target, Appended, max_tries, add_range,
  first_target, find_target, elsewhere_append,
}
use limine_eucleia.Memmap.Elsewhere.Apart.{Whole, Clear, Found, find_target-Found}

-- No more usable memory at any address than before, and no entry that overflows.
pub record Shrunk (before after : List MemmapEntry) : Type 0 where
  pub usable_le : (a : ℕ) → hits after a usable ≤ hits before a usable
  pub ends : sum_by overflows after ≡ 0

part_Shrunk :
    (p : Pmm) (base len : ℕ)
    → sum_by overflows p.memmap ≡ 0
    → Ends
        (alloc_range p base len bootloader_reclaimable usable false false false)
        (λ r. Shrunk p.memmap r.1)
part_Shrunk p base len fine = elim (Bool-cases (len == 0)) [
  | inl z ↦ unfold alloc_range in rw z (record { usable_le = λ a. omega arith; ends = fine })
  | inr z ↦
      Ends_mono (alloc_range p base len bootloader_reclaimable usable false false false)
        (Outcome p base len bootloader_reclaimable fine usable false false)
        (λ r. Shrunk p.memmap r.1) (λ r o. outcome_lem r o)
        (alloc_range-Outcome p base len bootloader_reclaimable fine usable false false
          (ground (arith, z)))
]
  where
    outcome_lem :
        (r : Bool × List MemmapEntry)
        → Outcome p base len bootloader_reclaimable fine usable false false r
        → Shrunk p.memmap r.1
    outcome_lem r o = elim (Bool-cases r.0) [
      | inl found ↦ record {
        usable_le = λ a. elim (Bool-cases (inside base (base + len) a)) [
          | inl i ↦ omega (arith, (o.2 found).none_else a usable i (omega arith))
          | inr i ↦ (o.2 found).usable_le a i
        ];
        ends = (o.2 found).ends;
      }
      | inr kept ↦ rw (o.1 kept) (record { usable_le = λ a. omega arith; ends = fine })
    ]

reserve_parts-Shrunk :
    (xs : List (ℕ × ℕ)) (p : Pmm)
    → sum_by overflows p.memmap ≡ 0
    → Ends (reserve_parts p xs) (λ p'. Shrunk p.memmap p'.memmap)
unfolding reserve_parts
reserve_parts-Shrunk [] p fine = record { usable_le = λ a. omega arith; ends = fine }
reserve_parts-Shrunk (x ∷ xs) p fine =
    Ends-bind (alloc_range p x.0 x.1 bootloader_reclaimable usable false false false) _
      (λ r. Shrunk p.memmap r.1) (λ p'. Shrunk p.memmap p'.memmap) (part_Shrunk p x.0 x.1 fine)
      (λ r s.
        Ends_mono (reserve_parts (with_memmap p r.1) xs) (λ p'. Shrunk r.1 p'.memmap)
          (λ p'. Shrunk p.memmap p'.memmap)
          (λ p' t. record {
            usable_le = λ a. omega (arith, s.usable_le a, t.usable_le a);
            ends = t.ends;
          })
          (reserve_parts-Shrunk xs (with_memmap p r.1) s.ends))

pub elsewhere_reserve_target-Shrunk :
    (p : Pmm) (base len : ℕ)
    → sum_by overflows p.memmap ≡ 0
    → Ends (elsewhere_reserve_target p base len) (λ p'. Shrunk p.memmap p'.memmap)
unfolding elsewhere_reserve_target
elsewhere_reserve_target-Shrunk p base len fine = elim (Bool-cases (ltb (base + len) word)) [
  | inl w ↦
      rw (w, elsewhere_reserve_target)
        (reserve_parts-Shrunk (parts 64 base (base + len) p.memmap) p fine)
  | inr w ↦ rw (w, elsewhere_reserve_target) (record { usable_le = λ a. omega arith; ends = fine })
]

module _ (p : Pmm) (ranges : List ElsewhereRange) (ranges_max elsewhere len : ℕ) where
  abbrev pub added : (target : ℕ) → List ElsewhereRange
  added target = ranges ++ (record { elsewhere = elsewhere; target = target; length = len } ∷ [])

  -- One range more, at a target clear of the others, and less usable memory.
  abbrev pub AppendedClear : Option Appended → Type 0
  AppendedClear none = Unit
  AppendedClear (some r) =
      (r.ranges ≡ added r.at)
      × (length r.ranges ≤ ranges_max)
      × All (Clear p r.at len) ranges
      × Shrunk p.memmap r.pmm.memmap

  add_range-AppendedClear :
      (allow : Bool) (w : All Whole ranges)
      → sum_by overflows p.memmap ≡ 0
      → (o : Option ℕ) → Found p ranges allow len w o
      → Ends (add_range p ranges ranges_max elsewhere len o) AppendedClear
  add_range-AppendedClear allow w fine none f = tt
  add_range-AppendedClear allow w fine (some t) f =
      Ends-bind (elsewhere_reserve_target p t len) _ (λ p'. Shrunk p.memmap p'.memmap) AppendedClear
        (elsewhere_reserve_target-Shrunk p t len fine)
        (λ p' s.
          Ends-if (leb ranges_max (length ranges)) panic _ AppendedClear (λ e. tt)
            (λ e. (
              refl,
              ground (
                arith,
                e,
                length-append ranges
                    (record { elsewhere = elsewhere; target = t; length = len } ∷ []),
              ),
              f,
              s,
            )))

  -- On a state whose map has no overflowing entry, and for ranges whose ends are representable,
  -- elsewhere_append() comes to an end: it panics, or returns false, or returns true with the
  -- new range added at the end of the ranges, which are at most the maximum; its target then
  -- ends below 4 GiB and lies apart from the target and from the source of each earlier range,
  -- in memory that is all usable or all reclaimable (if there are earlier ranges), and no
  -- address is in more usable entries than before.
  pub elsewhere_append-AppendedClear :
      (allow : Bool) (target : ℕ)
      → All Whole ranges
      → sum_by overflows p.memmap ≡ 0
      → Ends (elsewhere_append p allow ranges ranges_max elsewhere target len) AppendedClear
  unfolding elsewhere_append
  elsewhere_append-AppendedClear allow target w fine = from (first_target ranges target)
    where
      from :
          (o : Option ℕ)
          → Ends
              (elim o [
                | none ↦ ok none
                | some t ↦
                    find_target max_tries p ranges allow len false t
                    >>= add_range p ranges ranges_max elsewhere len
              ])
              AppendedClear
      from none = tt
      from (some t) =
          Ends-bind (find_target max_tries p ranges allow len false t) _
            (Found p ranges allow len w) AppendedClear
            (find_target-Found p ranges allow len w max_tries false t)
            (add_range-AppendedClear allow w fine)
