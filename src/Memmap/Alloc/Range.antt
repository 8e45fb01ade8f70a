-- ===== src/Memmap/Alloc/Range.antt =====
-- memmap_alloc_range_in(), memmap_alloc_range(), pmm_check_type() and pmm_free() of
-- common/mm/pmm.s2.c.
use limine_eucleia.Prelude.{
  ℕ, ◌-◌, ◌%◌, Bool, true, false, not, ◌&&◌, none, some, List, [], ◌∷◌, ltb, leb, ◌==◌,
  if◌then◌else◌, Result, ok, panic, ◌>>=◌,
}
use limine_eucleia.Word.{word, checked_add, align_up}
use limine_eucleia.Memmap.Entry.{MemmapEntry, usable}
use limine_eucleia.Memmap.Claim.Step.{new_entry}
use limine_eucleia.Memmap.Sanitise.Passes.{sanitise}

-- The global state that the allocators read and write: memmap, memmap_max_entries,
-- pmm_sanitiser_keep_first_page and allocations_disallowed.
pub record Pmm : Type 0 where
  pub memmap : List MemmapEntry
  pub max_entries : ℕ
  pub keep_first_page : Bool
  pub allocations_disallowed : Bool

-- `(uint64_t)-1` stands for an address in no entry.
unfoldable pub check_type : List MemmapEntry → ℕ → ℕ
check_type [] addr = word - 1
check_type (e ∷ m) addr = elim (checked_add e.base e.length) [
  | none ↦ check_type m addr
  | some entry_top ↦ if leb e.base addr && ltb addr entry_top then e.type else check_type m addr
]

-- Whether an entry, of the overlay type unless that is 0, holds the whole range.
unfoldable pub holds_range : (overlay_type base top : ℕ) → List MemmapEntry → Bool
holds_range overlay_type base top [] = false
holds_range overlay_type base top (e ∷ m) =
    if not (overlay_type == 0) && not (e.type == overlay_type)
    then holds_range overlay_type base top m
    else elim (checked_add e.base e.length) [
      | none ↦ holds_range overlay_type base top m
      | some entry_top ↦
          if leb e.base base && (ltb base entry_top && leb top entry_top)
          then true
          else holds_range overlay_type base top m
    ]

module _ (p : Pmm) where
  -- pmm_new_entry(), which returns true, and then the label `success`.
  unfoldable pub commit : (base len type : ℕ) → Result (Bool × List MemmapEntry)
  commit base len type = new_entry p.max_entries p.memmap base len type >>= λ m.
      sanitise p.max_entries p.keep_first_page false m >>= λ m'. ok (true, m')

  -- What the call returns, and the array that it leaves; `fresh` is the argument `new_entry`.
  unfoldable pub alloc_range :
      (base len type overlay_type : ℕ)
      → (do_panic simulation fresh : Bool) → Result (Bool × List MemmapEntry)
  alloc_range base len type overlay_type do_panic simulation fresh =
      if len == 0
      then ok (true, p.memmap)
      else if simulation && fresh
      then ok (true, p.memmap)
      else elim (checked_add base len) [
        | none ↦ if do_panic then panic else ok (false, p.memmap)
        | some top ↦
            if holds_range overlay_type base top p.memmap
            then (if simulation then ok (true, p.memmap) else commit base len type)
            else if not fresh
            then (if do_panic then panic else ok (false, p.memmap))
            else commit base len type
      ]

  abbrev pub with_memmap : List MemmapEntry → Pmm
  with_memmap m = record p { memmap = m }

  abbrev pub at_least_one : ℕ → ℕ
  at_least_one count = if count == 0 then 1 else count

  unfoldable pub pmm_free : (ptr count : ℕ) → Result Pmm
  pmm_free ptr count =
      if ptr == 0
      then ok p
      else if not (ptr % 4096 == 0)
      then panic
      else elim (align_up (at_least_one count) 4096) [
        | none ↦ panic
        | some size ↦
            if p.allocations_disallowed
            then panic
            else (alloc_range ptr size usable 0 false false true >>= λ r. ok (with_memmap r.1))
      ]
