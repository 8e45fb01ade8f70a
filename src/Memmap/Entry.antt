-- ===== src/Memmap/Entry.antt =====
-- `struct memmap_entry` of common/mm/pmm.h, the memory types, the removal of an entry that the
-- loops of common/mm/pmm.s2.c share, and what an array of entries says of an address.
use limine_eucleia.Prelude.{
  ℕ, ◌+◌, ◌-◌, ◌≤◌, Bool, ◌&&◌, none, some, List, arith, ltb, leb, ◌==◌, if◌then◌else◌, length,
  get_elem?, set, take, sum_by,
}
use limine_eucleia.Word.{word}

-- The member `unused` is only padding.
pub record MemmapEntry : Type 0 where
  pub base : ℕ
  pub length : ℕ
  pub type : ℕ

abbrev pub usable : ℕ
usable = 1

abbrev pub reserved : ℕ
reserved = 2

abbrev pub acpi_reclaimable : ℕ
acpi_reclaimable = 3

abbrev pub acpi_nvs : ℕ
acpi_nvs = 4

abbrev pub bootloader_reclaimable : ℕ
bootloader_reclaimable = 0x1000

abbrev pub kernel_and_modules : ℕ
kernel_and_modules = 0x1001

abbrev pub reserved_mapped : ℕ
reserved_mapped = 0x1003

abbrev pub efi_reclaimable : ℕ
efi_reclaimable = 0x2000

-- `if (i < count - 1) m[i] = m[count - 1]; count--;`, which runs at `i < count`.
unfoldable pub remove : List MemmapEntry → ℕ → List MemmapEntry
remove m i = take (length m - 1) (
    if ltb i (length m - 1)
    then elim (get_elem? m (length m - 1)) [ none ↦ m | some last ↦ set m i last ]
    else m)

-- Whether an address lies in an entry whose end is representable.
abbrev pub contains : MemmapEntry → ℕ → Bool
contains e a = ltb (e.base + e.length) word && (leb e.base a && ltb a (e.base + e.length))

abbrev pub cover : ℕ → MemmapEntry → ℕ
cover a e = if contains e a then 1 else 0

abbrev pub hit : ℕ → ℕ → MemmapEntry → ℕ
hit a t e = if e.type == t then cover a e else 0

-- How many entries hold the address, and how many of those have the type.
abbrev pub covers : List MemmapEntry → ℕ → ℕ
covers m a = sum_by (cover a) m

abbrev pub hits : List MemmapEntry → ℕ → ℕ → ℕ
hits m a t = sum_by (hit a t) m

-- An entry whose end is not representable.
abbrev pub overflows : MemmapEntry → ℕ
overflows e = if ltb (e.base + e.length) word then 0 else 1

pub hit-le-cover : (a t : ℕ) (e : MemmapEntry) → hit a t e ≤ cover a e
hit-le-cover a t e = ground arith
