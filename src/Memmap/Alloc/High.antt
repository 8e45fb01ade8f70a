-- ===== src/Memmap/Alloc/High.antt =====
-- ext_mem_alloc_type_aligned_mode() of common/mm/pmm.s2.c, as an x86-64 build has it, and the
-- functions that call it.
use limine_eucleia.Prelude.{
  ℕ, zero, suc, ◌-◌, Bool, true, false, not, Option, none, some, List, ltb, leb, ◌==◌,
  if◌then◌else◌, length, get_elem?, Result, ok, panic, ◌>>=◌,
}
use limine_eucleia.Word.{word, sub64, checked_add, checked_mul, align_down}
use limine_eucleia.Memmap.Entry.{MemmapEntry, usable, bootloader_reclaimable}
use limine_eucleia.Memmap.Sanitise.Passes.{sanitise}
use limine_eucleia.Memmap.Alloc.Range.{Pmm, alloc_range, with_memmap, at_least_one, pmm_free}

-- `alloc_base` and `aligned_length`.
pub record Site : Type 0 where
  pub base : ℕ
  pub length : ℕ

abbrev pub four_gib : ℕ
four_gib = 0x1_0000_0000

module _ (limit count alignment : ℕ) where
  -- The site in an entry with the end `entry_top` below the limit; `none` goes on with the loop.
  unfoldable pub site_below : (entry_base entry_top : ℕ) → Option Site
  site_below entry_base entry_top =
      if ltb (sub64 entry_top entry_base) count
      then none
      else (let alloc_base = align_down (sub64 entry_top count) alignment in
          if ltb alloc_base entry_base
          then none
          else some (record { base = alloc_base; length = sub64 entry_top alloc_base }))

  unfoldable pub site_in : MemmapEntry → Option Site
  site_in e = if not (e.type == usable) then none else elim (checked_add e.base e.length) [
    | none ↦ none
    | some entry_top ↦
        if ltb limit entry_top
        then (if leb limit e.base then none else site_below e.base limit)
        else site_below e.base entry_top
  ]

  -- `for (int i = memmap_entries - 1; i >= 0; i--)`, with the count of rounds left.
  unfoldable pub find_site : ℕ → List MemmapEntry → Option Site
  find_site zero m = none
  find_site (suc i) m = elim (get_elem? m i) [
    | none ↦ find_site i m
    | some e ↦ elim (site_in e) [ some s ↦ some s | none ↦ find_site i m ]
  ]

module _ (p : Pmm) where
  -- The range is reserved, and the address returned; clearing the memory is not modelled.
  unfoldable pub reserve : (type : ℕ) → Site → Result (ℕ × Pmm)
  reserve type s = alloc_range p s.base s.length type usable true false false >>= λ r.
      sanitise p.max_entries p.keep_first_page false r.1 >>= λ m. ok (s.base, with_memmap p m)

  unfoldable pub rounded : (count alignment : ℕ) → Option ℕ
  rounded count alignment = elim (checked_add (at_least_one p count) (sub64 alignment 1)) [
    | none ↦ none
    | some c ↦ some (align_down c alignment)
  ]

  -- Below 4 GiB first, and above it only if the caller allows it.
  unfoldable pub place : (size type alignment : ℕ) (allow_high_allocs : Bool) → Result (ℕ × Pmm)
  place size type alignment allow_high_allocs =
      elim (find_site four_gib size alignment (length p.memmap) p.memmap) [
        | some s ↦ reserve type s
        | none ↦
            if allow_high_allocs
            then elim (find_site (word - 1) size alignment (length p.memmap) p.memmap) [
              | some s ↦ reserve type s
              | none ↦ panic
            ]
            else panic
      ]

  unfoldable pub ext_alloc_mode :
      (count type alignment : ℕ) (allow_high_allocs : Bool) → Result (ℕ × Pmm)
  ext_alloc_mode count type alignment allow_high_allocs = elim (rounded count alignment) [
    | none ↦ panic
    | some size ↦
        if p.allocations_disallowed then panic else place size type alignment allow_high_allocs
  ]

  unfoldable pub ext_mem_alloc_type_aligned : (count type alignment : ℕ) → Result (ℕ × Pmm)
  ext_mem_alloc_type_aligned count type alignment = ext_alloc_mode count type alignment false

  unfoldable pub ext_mem_alloc_type : (count type : ℕ) → Result (ℕ × Pmm)
  unfolding ext_mem_alloc_type_aligned
  ext_mem_alloc_type count type = ext_mem_alloc_type_aligned count type 4096

  unfoldable pub ext_mem_alloc : ℕ → Result (ℕ × Pmm)
  unfolding ext_mem_alloc_type
  ext_mem_alloc count = ext_mem_alloc_type count bootloader_reclaimable

  unfoldable pub ext_mem_alloc_counted : (count elem_size : ℕ) → Result (ℕ × Pmm)
  unfolding ext_mem_alloc
  ext_mem_alloc_counted count elem_size = elim (checked_mul count elem_size) [
    | none ↦ panic
    | some size ↦ ext_mem_alloc size
  ]

  -- The copy of the old contents is not modelled.
  unfoldable pub pmm_realloc : (old_ptr old_size new_size : ℕ) → Result (ℕ × Pmm)
  unfolding ext_mem_alloc
  pmm_realloc old_ptr old_size new_size =
      if old_ptr == 0
      then ext_mem_alloc new_size
      else (ext_mem_alloc new_size >>= λ r. pmm_free r.1 old_ptr old_size >>= λ p'. ok (r.0, p'))

  -- get_memmap() of a BIOS build.
  unfoldable pub get_memmap : Result Pmm
  get_memmap = sanitise p.max_entries p.keep_first_page true p.memmap >>= λ m.
      ok (record p { memmap = m; allocations_disallowed = true })
