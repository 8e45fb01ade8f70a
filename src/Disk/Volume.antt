-- ===== src/Disk/Volume.antt =====
-- cache_block() and volume_read() of common/lib/part.s2.c, and the disk_read_sectors() of
-- common/drivers/disk.s2.c that a UEFI build has.
use limine_eucleia.Prelude.{
  ℕ, zero, suc, ◌+◌, ◌-◌, ◌*◌, ◌/◌, ◌%◌, Bool, true, false, not, ◌&&◌, ◌||◌, Option, none, some,
  List, [], ◌++◌, ltb, leb, ◌==◌, if◌then◌else◌, length, take, drop, replicate, Result, ok, panic,
  out_of_fuel, ◌>>=◌,
}
use limine_eucleia.Word.{word, checked_add, checked_mul, div_roundup}
use limine_eucleia.Memmap.Alloc.Range.{Pmm}
use limine_eucleia.Memmap.Alloc.High.{ext_mem_alloc}

-- The fields of `struct volume` that reading uses. `cache` has the bytes that the pointer leads to,
-- and `cached` is the status CACHE_READY.
pub record Volume : Type 0 where
  pub fastest_xfer_size : ℕ
  pub pxe : Bool
  pub sector_size : ℕ
  pub cached : Bool
  pub cache : Option (List ℕ)
  pub cached_block : ℕ
  pub first_sect : ℕ
  pub sect_count : ℕ

-- A volume, and the memory map that its cache is allocated from.
pub record Device : Type 0 where
  pub pmm : Pmm
  pub volume : Volume

-- A count of -1 says that it is not known.
abbrev pub unknown : ℕ
unknown = word - 1

abbrev pub bytes_in_block : Volume → ℕ
bytes_in_block v = v.fastest_xfer_size * v.sector_size % word

-- Where a block begins, in sectors of the disk.
abbrev pub block_sector : Volume → (block : ℕ) → Option ℕ
block_sector v block =
    if not (v.first_sect % (v.sector_size / 512) == 0)
    then none
    else elim (checked_mul block v.fastest_xfer_size) [
      | none ↦ none
      | some block_offset ↦ checked_add (v.first_sect / (v.sector_size / 512)) block_offset
    ]

-- `__builtin_add_overflow()` with UINT64_MAX in place of the sum.
abbrev pub add_or_max : ℕ → ℕ → ℕ
add_or_max a b = if ltb (a + b) word then a + b else word - 1

abbrev pub remaining_sectors : (xfer_size read_sector end_sector : ℕ) → Option ℕ
remaining_sectors xfer_size read_sector end_sector =
    if leb end_sector read_sector
    then none
    else if ltb (end_sector - read_sector) xfer_size
    then some (end_sector - read_sector)
    else some xfer_size

abbrev pub clamped : (xfer_size read_sector first_sector : ℕ) → Option ℕ → Option ℕ
clamped xfer_size read_sector first_sector none = none
clamped xfer_size read_sector first_sector (some volume_sectors) =
    remaining_sectors xfer_size read_sector (add_or_max first_sector volume_sectors)

-- The number of sectors to read.
abbrev pub transfer : Volume → (read_sector : ℕ) → Option ℕ
transfer v read_sector =
    if v.sect_count == unknown
    then some v.fastest_xfer_size
    else clamped v.fastest_xfer_size read_sector (v.first_sect / (v.sector_size / 512))
        (div_roundup v.sect_count (v.sector_size / 512))

abbrev pub with_volume : Device → Volume → Device
with_volume d v = record d { volume = v }

-- The allocated memory is cleared.
abbrev pub with_cache : Device → Result (Device × List ℕ)
with_cache d = elim d.volume.cache [
  | some c ↦ ok (d, c)
  | none ↦ elim (checked_mul d.volume.fastest_xfer_size d.volume.sector_size) [
    | none ↦ panic
    | some size ↦ ext_mem_alloc d.pmm size >>= λ r. ok (
      record { pmm = r.1; volume = record d.volume { cache = some (replicate size 0) } },
      replicate size 0,
    )
  ]
]

-- What was read replaces the beginning of the old bytes.
abbrev pub filled : Device → (block : ℕ) → (old : List ℕ) → Option (List ℕ) → Device × Bool
filled d block old none = (d, false)
filled d block old (some new) = (
  with_volume d (record d.volume {
    cached = true;
    cached_block = block;
    cache = some (new ++ drop (length new) old);
  }),
  true,
)

abbrev pub Rest : Type 0
Rest = Device → (at left : ℕ) → Result (Device × Option (List ℕ))

-- The bytes at an offset of the cache.
abbrev pub copied : Option (List ℕ) → (offset chunk : ℕ) → List ℕ
copied none offset chunk = []
copied (some c) offset chunk = take chunk (drop offset c)

abbrev pub joined : List ℕ → Device × Option (List ℕ) → Device × Option (List ℕ)
joined front (d, none) = (d, none)
joined front (d, some back) = (d, some (front ++ back))

abbrev pub chunk_size : (block_size at left : ℕ) → ℕ
chunk_size block_size at left =
    if ltb (block_size - at % block_size) left then block_size - at % block_size else left

abbrev pub outside_volume : Volume → (loc count : ℕ) → Bool
outside_volume v loc count =
    if v.sect_count == unknown then false else elim (checked_mul v.sect_count 512) [
      | none ↦ true
      | some part_size ↦ leb part_size loc || ltb (part_size - loc) count
    ]

abbrev pub no_geometry : Volume → Bool
no_geometry v = v.fastest_xfer_size == 0 || ltb v.sector_size 512 || not (v.sector_size % 512 == 0)

-- The firmware's ReadBlocks().
module _ (read_blocks : (block size : ℕ) → Option (List ℕ)) where
  abbrev pub disk_read_sectors : Volume → (block count : ℕ) → Option (List ℕ)
  disk_read_sectors v block count = read_blocks block (count * v.sector_size)

  abbrev pub read_sectors :
      Device → (block : ℕ) → (old : List ℕ) → (read_sector : ℕ) → Option ℕ → Device × Bool
  read_sectors d block old read_sector none = (d, false)
  read_sectors d block old read_sector (some count) =
      filled d block old (disk_read_sectors d.volume read_sector count)

  abbrev pub fill_from : Device → (block : ℕ) → (old : List ℕ) → Option ℕ → Device × Bool
  fill_from d block old none = (d, false)
  fill_from d block old (some read_sector) =
      read_sectors d block old read_sector (transfer d.volume read_sector)

  unfoldable pub cache_block : Device → (block : ℕ) → Result (Device × Bool)
  cache_block d block =
      if d.volume.cached && block == d.volume.cached_block
      then ok (d, true)
      else with_cache (with_volume d (record d.volume { cached = false })) >>= λ r.
          ok (fill_from r.0 block r.1 (block_sector r.0.volume block))

  -- `at` is `loc + progress`, and `left` is `count - progress`.
  abbrev pub read_block : (block_size : ℕ) → Rest → Rest
  read_block block_size again d at left =
      let chunk = chunk_size block_size at left in
      cache_block d (at / block_size) >>= λ r.
      if not r.1
      then ok (r.0, none)
      else again r.0 ((at + chunk) % word) (left - chunk) >>= λ s.
          ok (joined (copied r.0.volume.cache (at % block_size) chunk) s)

  unfoldable pub read_loop : (fuel : ℕ) → Rest
  read_loop zero d at left = if left == 0 then ok (d, some []) else out_of_fuel
  read_loop (suc fuel) d at left =
      if left == 0
      then ok (d, some [])
      else read_block (bytes_in_block d.volume) (read_loop fuel) d at left

  -- `none` is false; a buffer that a false leaves half filled is not kept.
  unfoldable pub volume_read : Device → (loc count : ℕ) → Result (Device × Option (List ℕ))
  volume_read d loc count =
      if d.volume.pxe
      then panic
      else if no_geometry d.volume
      then ok (d, none)
      else if outside_volume d.volume loc count
      then ok (d, none)
      else read_loop count d loc count
