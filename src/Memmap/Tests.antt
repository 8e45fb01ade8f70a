-- ===== src/Memmap/Tests.antt =====
-- Runs of the memory map's code, and its theorems at concrete inputs.
use limine_eucleia.Prelude.{
  ℕ, ◌-◌, ◌≡◌, refl, true, false, List, [], ◌∷◌, ok, Ends, Returns, some, arith,
}
use limine_eucleia.Word.{word, align_up}
use limine_eucleia.Memmap.Entry.{MemmapEntry, usable, reserved, bootloader_reclaimable}
use limine_eucleia.Memmap.Claim.Step.{new_entry}
use limine_eucleia.Memmap.Claim.Total.{Claims, new_entry-Claims, new_entry-Returns}
use limine_eucleia.Memmap.Sanitise.Separated.{Separated, separate-Separated}
use limine_eucleia.Memmap.Sanitise.Clipped.{Clipped, clip-Clipped}
use limine_eucleia.Memmap.Sanitise.Merged.{Merges, merge-Merges}
use limine_eucleia.Memmap.Sanitise.Sane.{Sane, sanitise-Sane}
use limine_eucleia.Memmap.Alloc.Range.{Pmm, alloc_range, holds_range, commit}
use limine_eucleia.Memmap.Alloc.Claims.{Outcome, alloc_range-Outcome}
use limine_eucleia.Memmap.Alloc.High.{ext_alloc_mode}
use limine_eucleia.Memmap.Alloc.Served.{Served, ext_alloc_mode-Served}
use limine_eucleia.Memmap.Alloc.Info.{mmap_get_info, extend_loop, extend, extend_entry}
use limine_eucleia.Memmap.Alloc.Frontier.{Contiguous, mmap_get_info-Contiguous}
use limine_eucleia.Memmap.Elsewhere.Place.{
  ElsewhereRange, elsewhere_append, find_target, check_ranges, check_range, available,
  elsewhere_reserve_target, reserve_parts, parts, first_target,
}
use limine_eucleia.Memmap.Elsewhere.Reserve.{AppendedClear, elsewhere_append-AppendedClear}
use limine_eucleia.Memmap.Sanitise.Separate.{separate, align_entry}
use limine_eucleia.Memmap.Sanitise.Clip.{clip}
use limine_eucleia.Memmap.Sanitise.Sort.{sort}
use limine_eucleia.Memmap.Sanitise.Merge.{merge}
use limine_eucleia.Memmap.Sanitise.Passes.{sanitise}

abbrev entry : ℕ → ℕ → ℕ → MemmapEntry
entry base length type = record { base = base; length = length; type = type }

-- Usable memory with a reserved hole, and a usable entry that overlaps it.
abbrev firmware_map : List MemmapEntry
firmware_map =
    entry 0x10_0000 0x40_0000 usable
    ∷ entry 0x20_0000 0x1000 reserved
    ∷ entry 0 0x9_f000 usable
    ∷ entry 0x40_0000 0x20_0000 usable
    ∷ []

sanitise_run :
    sanitise 512 false false firmware_map
    ≡ ok (
        entry 0x1000 0x9_e000 usable
        ∷ entry 0x10_0000 0x10_0000 usable
        ∷ entry 0x20_0000 0x1000 reserved
        ∷ entry 0x20_1000 0x3f_f000 usable
        ∷ [])
unfolding sanitise separate clip sort merge
sanitise_run = refl

new_entry_run :
    new_entry 512 firmware_map 0x20_0000 0x2000 bootloader_reclaimable
    ≡ ok (
        entry 0x10_0000 0x10_0000 usable
        ∷ entry 0x20_2000 0x2f_e000 usable
        ∷ entry 0 0x9_f000 usable
        ∷ entry 0x40_0000 0x20_0000 usable
        ∷ entry 0x20_0000 0x2000 bootloader_reclaimable
        ∷ [])
unfolding new_entry
new_entry_run = refl

mmap_get_info_run :
    mmap_get_info firmware_map ≡ ok (record { lowermem = 0x9_f000; uppermem = 0x50_0000 })
unfolding mmap_get_info extend_loop extend extend_entry
mmap_get_info_run = refl

abbrev state : Pmm
state = record {
  memmap = firmware_map;
  max_entries = 512;
  keep_first_page = false;
  allocations_disallowed = false;
}

new_entry-Claims_example :
    Ends
      (new_entry 512 firmware_map 0x20_0000 0x2000 bootloader_reclaimable)
      (Claims firmware_map 0x20_0000 0x2000 bootloader_reclaimable)
new_entry-Claims_example = new_entry-Claims firmware_map 0x20_0000 0x2000 bootloader_reclaimable 512

new_entry-Returns_example :
    Returns
      (new_entry 512 firmware_map 0x20_0000 0x2000 bootloader_reclaimable)
      (Claims firmware_map 0x20_0000 0x2000 bootloader_reclaimable)
new_entry-Returns_example =
    new_entry-Returns firmware_map 0x20_0000 0x2000 bootloader_reclaimable 512 (omega arith)
      (omega arith)

separate-Separated_example : Ends (separate 512 true firmware_map) (Separated true firmware_map)
separate-Separated_example = separate-Separated true 512 firmware_map refl

clip-Clipped_example : Returns (clip false firmware_map) (Clipped false firmware_map)
clip-Clipped_example = clip-Clipped false firmware_map

merge-Merges_example : Returns (merge firmware_map) (Merges firmware_map)
merge-Merges_example = merge-Merges firmware_map refl

sanitise-Sane_example : Ends (sanitise 512 false true firmware_map) (Sane false true firmware_map)
sanitise-Sane_example = sanitise-Sane false true 512 firmware_map refl

align_entry_run : align_entry (entry 0x10_0010 0x3000 usable) ≡ some (entry 0x10_1000 0x2000 usable)
unfolding align_entry
align_entry_run = refl

alloc_range-Outcome_example :
    Ends
      (alloc_range state 0x30_0000 0x1000 bootloader_reclaimable usable true false false)
      (Outcome state 0x30_0000 0x1000 bootloader_reclaimable refl usable true false)
alloc_range-Outcome_example =
    alloc_range-Outcome state 0x30_0000 0x1000 bootloader_reclaimable refl usable true false
      (omega arith)

ext_alloc_mode-Served_example :
    Ends
      (ext_alloc_mode state 0x1800 bootloader_reclaimable 4096 true)
      (Served state 0x1800 bootloader_reclaimable 4096 (word - 1))
ext_alloc_mode-Served_example =
    ext_alloc_mode-Served state bootloader_reclaimable 4096 refl (omega arith) (omega arith)
      (omega arith) 0x1800 true

mmap_get_info-Contiguous_example : Returns (mmap_get_info firmware_map) (Contiguous firmware_map)
mmap_get_info-Contiguous_example = mmap_get_info-Contiguous firmware_map

abbrev kernel_range : ElsewhereRange
kernel_range = record { elsewhere = 0x30_0000; target = 0x10_0000; length = 0x1000 }

elsewhere_append_run :
    elsewhere_append state true (kernel_range ∷ []) 4 0x50_0000 0x10_0000 0x1000
    ≡ ok (
        some (record {
          pmm = record state {
            memmap =
                entry 0x1000 0x9_e000 usable
                ∷ entry 0x10_0000 0x1000 usable
                ∷ entry 0x10_1000 0x1000 bootloader_reclaimable
                ∷ entry 0x10_2000 0xf_e000 usable
                ∷ entry 0x20_0000 0x1000 reserved
                ∷ entry 0x20_1000 0x3f_f000 usable
                ∷ [];
          };
          ranges =
              kernel_range
              ∷ record { elsewhere = 0x50_0000; target = 0x10_1000; length = 0x1000 }
              ∷ [];
          at = 0x10_1000;
        }))
unfolding elsewhere_append find_target check_ranges check_range available alloc_range holds_range
    commit elsewhere_reserve_target reserve_parts parts sanitise separate clip sort merge new_entry
    first_target align_up
elsewhere_append_run = refl

elsewhere_append-AppendedClear_example :
    Ends
      (elsewhere_append state true (kernel_range ∷ []) 4 0x50_0000 0x10_0000 0x1000)
      (AppendedClear state (kernel_range ∷ []) 4 0x50_0000 0x1000)
elsewhere_append-AppendedClear_example =
    elsewhere_append-AppendedClear state (kernel_range ∷ []) 4 0x50_0000 0x1000 true 0x10_0000
      ((omega arith, omega arith), tt) refl
