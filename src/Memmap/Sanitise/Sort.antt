-- ===== src/Memmap/Sanitise/Sort.antt =====
-- The third pass of pmm_sanitise_entries(): a selection sort by the base addresses.
use limine_eucleia.Prelude.{
  ℕ, zero, suc, ◌-◌, none, some, List, ltb, if◌then◌else◌, length, get_elem?, set,
}
use limine_eucleia.Memmap.Entry.{MemmapEntry}

module _ (m : List MemmapEntry) where
  -- `for (size_t i = p; i < count; i++)` with `rounds` rounds left; the pair is (min, min_index).
  unfoldable pub min_loop : (rounds i min min_index : ℕ) → ℕ
  min_loop zero i min min_index = min_index
  min_loop (suc rounds) i min min_index = elim (get_elem? m i) [
    | none ↦ min_index
    | some e ↦
        min_loop rounds (suc i) (if ltb e.base min then e.base else min)
          (if ltb e.base min then i else min_index)
  ]

  -- The smallest of `m[p]` and what follows, exchanged with `m[p]`.
  unfoldable pub select : ℕ → List MemmapEntry
  unfolding min_loop
  select p = elim (get_elem? m p) [
    | none ↦ m
    | some e ↦
        let min_index = min_loop (length m - p) p e.base p in
        elim (get_elem? m min_index) [ none ↦ m | some min_e ↦ set (set m min_index e) p min_e ]
  ]

-- `for (size_t p = 0; p + 1 < count; p++)` with `rounds` rounds left.
unfoldable pub sort_loop : (rounds p : ℕ) → List MemmapEntry → List MemmapEntry
sort_loop zero p m = m
sort_loop (suc rounds) p m = sort_loop rounds (suc p) (select m p)

unfoldable pub sort : List MemmapEntry → List MemmapEntry
unfolding sort_loop select
sort m = sort_loop (length m - 1) 0 m
