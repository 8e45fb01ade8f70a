-- ===== src/Memmap/Sanitise/Merge.antt =====
-- The last pass of pmm_sanitise_entries(): neighbours of one type that meet are joined.
use limine_eucleia.Prelude.{
  ℕ, zero, suc, ◌+◌, Bool, ◌&&◌, ◌||◌, Option, none, some, List, ◌++◌, ◌==◌, if◌then◌else◌, length,
  get_elem?, set, take, drop, Result, ok, out_of_fuel,
}
use limine_eucleia.Word.{checked_add}
use limine_eucleia.Memmap.Entry.{
  MemmapEntry, bootloader_reclaimable, reserved_mapped, kernel_and_modules, usable,
}

abbrev pub mergeable : ℕ → Bool
mergeable t =
    t == bootloader_reclaimable
    || (t == reserved_mapped || (t == kernel_and_modules || t == usable))

-- The joined entry, or `none` where the loop goes on.
unfoldable pub join : MemmapEntry → MemmapEntry → Option MemmapEntry
join e f =
    if mergeable e.type
    then elim (checked_add e.base e.length) [
      | none ↦ none
      | some merge_top ↦
          if f.type == e.type && f.base == merge_top
          then elim (checked_add e.length f.length) [
            | none ↦ none
            | some length ↦ some (record e { length = length })
          ]
          else none
    ]
    else none

-- `for (j = i + 2; j < count; j++) m[j - 1] = m[j]; count--;`
abbrev pub eradicate : ℕ → List MemmapEntry → List MemmapEntry
eradicate i m = take (suc i) m ++ drop (suc (suc i)) m

unfoldable pub merge_loop : (fuel i : ℕ) → List MemmapEntry → Result (List MemmapEntry)
merge_loop zero i m = out_of_fuel
merge_loop (suc fuel) i m = elim (get_elem? m i) [
  | none ↦ ok m
  | some e ↦ elim (get_elem? m (suc i)) [
    | none ↦ ok m
    | some f ↦ elim (join e f) [
      | none ↦ merge_loop fuel (suc i) m
      | some joined ↦ merge_loop fuel i (eradicate i (set m i joined))
    ]
  ]
]

unfoldable pub merge : List MemmapEntry → Result (List MemmapEntry)
unfolding merge_loop join
merge m = merge_loop (length m + 1) 0 m
