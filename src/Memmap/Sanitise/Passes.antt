-- ===== src/Memmap/Sanitise/Passes.antt =====
-- pmm_sanitise_entries() as a whole.
use limine_eucleia.Prelude.{ℕ, Bool, List, Result, ◌>>=◌}
use limine_eucleia.Memmap.Entry.{MemmapEntry}
use limine_eucleia.Memmap.Sanitise.Separate.{separate}
use limine_eucleia.Memmap.Sanitise.Clip.{clip}
use limine_eucleia.Memmap.Sanitise.Sort.{sort}
use limine_eucleia.Memmap.Sanitise.Merge.{merge}

-- `keep_first_page` is pmm_sanitiser_keep_first_page.
unfoldable pub sanitise :
    (max_entries : ℕ) (keep_first_page align_entries : Bool)
    → List MemmapEntry
    → Result (List MemmapEntry)
sanitise max_entries keep_first_page align_entries m =
    separate max_entries align_entries m >>= λ apart.
    clip keep_first_page apart >>= λ clipped. merge (sort clipped)
