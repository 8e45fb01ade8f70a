-- ===== src/Memmap/Sanitise/Clip.antt =====
-- The second pass of pmm_sanitise_entries(): usable entries lose what they hold of the first page,
-- unless it is kept, and empty entries go.
use limine_eucleia.Prelude.{
  ℕ, zero, suc, ◌+◌, Bool, not, ◌&&◌, Option, none, some, List, ltb, leb, ◌==◌, if◌then◌else◌,
  length, get_elem?, set, Result, ok, out_of_fuel,
}
use limine_eucleia.Word.{sub64, checked_add}
use limine_eucleia.Memmap.Entry.{MemmapEntry, usable, remove}

-- The entry as it stays, or `none` for a removal.
unfoldable pub clip_entry : (keep_first_page : Bool) → MemmapEntry → Option MemmapEntry
clip_entry keep_first_page e =
    if e.type == usable && (not keep_first_page && ltb e.base 0x1000)
    then elim (checked_add e.base e.length) [
      | none ↦ none
      | some entry_top ↦
          if leb entry_top 0x1000
          then none
          else (let length = sub64 e.length (sub64 0x1000 e.base) in
              if length == 0 then none else some (record e { base = 0x1000; length = length }))
    ]
    else if e.length == 0
    then none
    else some e

-- After a removal `i--` looks at the same index again.
unfoldable pub clip_loop :
    (keep_first_page : Bool) (fuel i : ℕ) → List MemmapEntry → Result (List MemmapEntry)
clip_loop keep_first_page zero i m = out_of_fuel
clip_loop keep_first_page (suc fuel) i m = elim (get_elem? m i) [
  | none ↦ ok m
  | some e ↦ elim (clip_entry keep_first_page e) [
    | none ↦ clip_loop keep_first_page fuel i (remove m i)
    | some e' ↦ clip_loop keep_first_page fuel (suc i) (set m i e')
  ]
]

unfoldable pub clip : (keep_first_page : Bool) → List MemmapEntry → Result (List MemmapEntry)
unfolding clip_loop clip_entry remove
clip keep_first_page m = clip_loop keep_first_page (length m + 1) 0 m
