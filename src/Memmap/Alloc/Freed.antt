-- ===== src/Memmap/Alloc/Freed.antt =====
-- What ext_mem_alloc() and pmm_free() of common/mm/pmm.s2.c keep of the memory map.
use limine_eucleia.Prelude.{
  ℕ, ◌≡◌, Bool, true, false, Option, none, some, List, arith, inl, inr, ◌==◌, ◌%◌, not,
  if◌then◌else◌, Bool-cases, sum_by, ok, panic, ◌>>=◌, Ends, Ends_mono, Ends-bind, Ends-if,
}
use limine_eucleia.Word.{align_up}
use limine_eucleia.Memmap.Entry.{MemmapEntry, usable, bootloader_reclaimable, overflows}
use limine_eucleia.Memmap.Alloc.Range.{Pmm, alloc_range, with_memmap, at_least_one, pmm_free}
use limine_eucleia.Memmap.Alloc.High.{ext_mem_alloc, ext_mem_alloc_type, ext_mem_alloc_type_aligned}
use limine_eucleia.Memmap.Alloc.Served.{Served, ext_alloc_mode-Served}
use limine_eucleia.Memmap.Alloc.Claims.{Outcome, alloc_range-Outcome}

module _ (p : Pmm) (fine : sum_by overflows p.memmap ≡ 0) where
  -- No entry overflows afterwards.
  abbrev pub Fine : Pmm → Type 0
  Fine p' = sum_by overflows p'.memmap ≡ 0

  outcome-fine :
      (base len type overlay : ℕ) (do_panic fresh : Bool) (r : Bool × List MemmapEntry)
      → Outcome p base len type fine overlay do_panic fresh r
      → sum_by overflows r.1 ≡ 0
  outcome-fine base len type overlay do_panic fresh r o = elim (Bool-cases r.0) [
    | inl c ↦ (o.2 c).ends
    | inr c ↦ rw (o.1 c) fine
  ]

  pub alloc_range-fine :
      (base len type overlay : ℕ) (do_panic fresh : Bool)
      → Ends
          (alloc_range p base len type overlay do_panic false fresh)
          (λ r. sum_by overflows r.1 ≡ 0)
  alloc_range-fine base len type overlay do_panic fresh = elim (Bool-cases (len == 0)) [
    | inl z ↦ unfold alloc_range in rw z fine
    | inr z ↦
        Ends_mono (alloc_range p base len type overlay do_panic false fresh)
          (Outcome p base len type fine overlay do_panic fresh) (λ r. sum_by overflows r.1 ≡ 0)
          (outcome-fine base len type overlay do_panic fresh)
          (alloc_range-Outcome p base len type fine overlay do_panic fresh (ground (arith, z)))
  ]

  pub pmm_free-Fine : (ptr count : ℕ) → Ends (pmm_free p ptr count) Fine
  unfolding pmm_free
  pmm_free-Fine ptr count =
      Ends-if (ptr == 0) (ok p) _ Fine (λ e. fine)
        (λ e.
          Ends-if (not (ptr % 4096 == 0)) panic _ Fine (λ f. tt)
            (λ f. from_size (align_up (at_least_one p count) 4096)))
    where
      from_size :
          (o : Option ℕ)
          → Ends
              (elim o [
                | none ↦ panic
                | some size ↦
                    if p.allocations_disallowed
                    then panic
                    else (alloc_range p ptr size usable 0 false false true >>= λ r.
                        ok (with_memmap p r.1))
              ])
              Fine
      from_size none = tt
      from_size (some size) =
          Ends-if p.allocations_disallowed panic _ Fine (λ e. tt)
            (λ e.
              Ends-bind (alloc_range p ptr size usable 0 false false true) _
                (λ r. sum_by overflows r.1 ≡ 0) Fine (alloc_range-fine ptr size usable 0 false true)
                (λ r h. h))

  pub ext_mem_alloc-Served :
      (count : ℕ)
      → Ends
          (ext_mem_alloc p count)
          (Served p (at_least_one p count) bootloader_reclaimable 4096 0x1_0000_0000)
  unfolding ext_mem_alloc ext_mem_alloc_type ext_mem_alloc_type_aligned
  ext_mem_alloc-Served count =
      ext_alloc_mode-Served p bootloader_reclaimable 4096 fine (omega arith) (omega arith)
        (omega arith) count false
