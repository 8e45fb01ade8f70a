-- ===== src/Memmap/Sanitise/Separate.antt =====
-- The first pass of pmm_sanitise_entries(): the loop over `i`, which starts anew after each removal,
-- and align_entry().
use limine_eucleia.Prelude.{
  ℕ, zero, suc, ◌+◌, ◌*◌, Bool, true, false, Option, none, some, List, ltb, ◌==◌, if◌then◌else◌,
  get_elem?, set, Result, ok, panic, out_of_fuel, ◌>>=◌,
}
use limine_eucleia.Word.{sub64, align_up, align_down}
use limine_eucleia.Memmap.Entry.{MemmapEntry, usable, remove}
use limine_eucleia.Memmap.Sanitise.Overlap.{scan_loop, scan_step, scan_overlap, cut, scan_fuel}

abbrev pub page_size : ℕ
page_size = 4096

-- `none` is the result `false`.
unfoldable pub align_entry : MemmapEntry → Option MemmapEntry
unfolding align_up align_down
align_entry e = if ltb e.length page_size then none else elim (align_up e.base page_size) [
  | none ↦ none
  | some base ↦
      let length = align_down (sub64 e.length (sub64 base e.base)) page_size in
      if length == 0 then none else some (record e { base = base; length = length })
]

-- The outer loop starts anew, or goes on.
pub data Round : Type 0 where
  restart : List MemmapEntry → Round
  next : List MemmapEntry → Round

-- `!m[i].length || (align_entries && !align_entry(&m[i].base, &m[i].length))`: `none` where that
-- holds, and else the entry as it then is.
unfoldable pub settle_entry : (align_entries : Bool) → MemmapEntry → Option MemmapEntry
settle_entry align_entries e =
    if e.length == 0 then none else if align_entries then align_entry e else some e

-- What stands behind the loop over `j`; the flag tells of a jump to `del_mm0`.
unfoldable pub settle : (align_entries : Bool) (i : ℕ) → List MemmapEntry → Bool → Round
settle align_entries i m true = restart (remove m i)
settle align_entries i m false = elim (get_elem? m i) [
  | none ↦ next m
  | some e ↦ elim (settle_entry align_entries e) [
    | none ↦ restart (remove m i)
    | some e' ↦ next (set m i e')
  ]
]

unfoldable pub separate_entry :
    (max_entries : ℕ) (align_entries : Bool) (i : ℕ) → List MemmapEntry → MemmapEntry → Result Round
separate_entry max_entries align_entries i m e =
    if e.type == usable
    then (scan_loop max_entries i (scan_fuel m) 0 m >>= λ r. ok (settle align_entries i r.0 r.1))
    else ok (next m)

unfoldable pub separate_loop :
    (max_entries : ℕ) (align_entries : Bool) (fuel i : ℕ)
    → List MemmapEntry
    → Result (List MemmapEntry)
separate_loop max_entries align_entries zero i m = out_of_fuel
separate_loop max_entries align_entries (suc fuel) i m = elim (get_elem? m i) [
  | none ↦ ok m
  | some e ↦ elim (separate_entry max_entries align_entries i m e) [
    | ok (restart m') ↦ separate_loop max_entries align_entries fuel 0 m'
    | ok (next m') ↦ separate_loop max_entries align_entries fuel (suc i) m'
    | panic ↦ panic
    | out_of_fuel ↦ out_of_fuel
  ]
]

unfoldable pub separate :
    (max_entries : ℕ) (align_entries : Bool) → List MemmapEntry → Result (List MemmapEntry)
unfolding separate_loop separate_entry scan_loop scan_step scan_overlap cut settle settle_entry
    align_entry remove
separate max_entries align_entries m =
    separate_loop max_entries align_entries (scan_fuel m * scan_fuel m + 1) 0 m
