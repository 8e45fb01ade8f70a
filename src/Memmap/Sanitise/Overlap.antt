-- ===== src/Memmap/Sanitise/Overlap.antt =====
-- The first pass of pmm_sanitise_entries() for one usable entry `m[i]`: the loop over `j` that takes
-- away what the other entries hold of it.
use limine_eucleia.Prelude.{
  ℕ, zero, suc, ◌+◌, Bool, true, false, ◌&&◌, none, some, List, [], ◌∷◌, ◌++◌, ltb, leb, ◌==◌,
  if◌then◌else◌, length, get_elem?, set, sum_by, Result, ok, panic, out_of_fuel,
}
use limine_eucleia.Word.{word, sub64, checked_add}
use limine_eucleia.Memmap.Entry.{MemmapEntry}

-- What a round over `j` does: go on, leave the loop, jump to `del_mm0`, or find the map full.
pub data Scan : Type 0 where
  move_on : List MemmapEntry → Scan
  leave : List MemmapEntry → Scan
  delete : Scan
  no_room : Scan

-- The assignments to `base` and `top` for the usable entry `e` against `f`, which end at `top` and
-- `res_top`.
module _ (e f : MemmapEntry) (top res_top : ℕ) where
  abbrev pub splits : Bool
  splits = (leb e.base f.base && ltb f.base top) && (leb e.base res_top && ltb res_top top)

  -- The new entry `m[count]`.
  abbrev pub fragment : MemmapEntry
  fragment = record e { base = res_top; length = sub64 top res_top }

  abbrev pub top_after_split : ℕ
  top_after_split = if splits then f.base else top

  abbrev pub new_top : ℕ
  new_top = if leb e.base f.base && ltb f.base top_after_split then f.base else top_after_split

  abbrev pub new_base : ℕ
  new_base = if leb e.base res_top && ltb res_top new_top then res_top else e.base

  unfoldable pub cut : MemmapEntry
  cut = record e { base = new_base; length = sub64 new_top new_base }

module _ (max_entries : ℕ) (m : List MemmapEntry) (i : ℕ) where
  -- Both ends are known, and `m[j]` is not empty.
  unfoldable pub scan_overlap : MemmapEntry → MemmapEntry → (top res_top : ℕ) → Scan
  scan_overlap e f top res_top =
      if leb f.base e.base && leb top res_top
      then leave (set m i (record e { base = top; length = 0 }))
      else if splits e f top res_top
      then (if leb max_entries (length m)
          then no_room
          else move_on (set m i (cut e f top res_top) ++ (fragment e f top res_top ∷ [])))
      else move_on (set m i (cut e f top res_top))

  unfoldable pub scan_entry : MemmapEntry → (j : ℕ) → MemmapEntry → Scan
  unfolding scan_overlap
  scan_entry e j f = if j == i then move_on m else elim (checked_add e.base e.length) [
    | none ↦ delete
    | some top ↦ elim (checked_add f.base f.length) [
      | none ↦ move_on m
      | some res_top ↦ if f.length == 0 then move_on m else scan_overlap e f top res_top
    ]
  ]

  unfoldable pub scan_step : (j : ℕ) → MemmapEntry → Scan
  unfolding scan_entry
  scan_step j f = elim (get_elem? m i) [ none ↦ leave m | some e ↦ scan_entry e j f ]

-- `for (size_t j = 0; j < count; j++)`; the flag tells of a jump to `del_mm0`.
unfoldable pub scan_loop :
    (max_entries i fuel j : ℕ) → List MemmapEntry → Result (List MemmapEntry × Bool)
scan_loop max_entries i zero j m = out_of_fuel
scan_loop max_entries i (suc fuel) j m = elim (get_elem? m j) [
  | none ↦ ok (m, false)
  | some f ↦ elim (scan_step max_entries m i j f) [
    | move_on m' ↦ scan_loop max_entries i fuel (suc j) m'
    | leave m' ↦ ok (m', false)
    | delete ↦ ok (m, true)
    | no_room ↦ panic
  ]
]

-- One more than the lengths of the entries, each with one for the entry itself.
abbrev pub size : MemmapEntry → ℕ
size e = e.length + 1

-- A length that no uint64_t holds; a map of the program has none.
abbrev pub too_wide : MemmapEntry → ℕ
too_wide e = if ltb e.length word then 0 else 1

abbrev pub scan_fuel : List MemmapEntry → ℕ
scan_fuel m = sum_by size m + 1
