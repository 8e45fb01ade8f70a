-- ===== src/Fat/Tests.antt =====
-- Runs of the file system's code on a small volume, and its theorems there.
use limine_eucleia.Prelude.{
  ℕ, ◌+◌, ◌*◌, ◌%◌, ◌≡◌, refl, false, Option, none, some, List, [], ◌∷◌, ◌++◌, arith, Ends, All,
  All-all, ltb→lt, ◌<◌, replicate, if◌then◌else◌, ltb, ◌==◌,
}
use limine_eucleia.Word.{div_roundup}
use limine_eucleia.Memmap.Entry.{usable}
use limine_eucleia.Disk.Bytes.{bytes_from}
use limine_eucleia.Disk.Volume.{Volume, Device, volume_read}
use limine_eucleia.Disk.Cached.{Geometry}
use limine_eucleia.Disk.Kept.{Sound, Kept}
use limine_eucleia.Disk.Source.{Source, volume_source}
use limine_eucleia.Fat.Context.{Context, init_context}
use limine_eucleia.Fat.Valid.{IfAny, ValidContext, init_context-ValidContext}
use limine_eucleia.Fat.Table.{read_cluster_chain, cache_cluster_chain}
use limine_eucleia.Fat.Contents.{FileRead, read_cluster_chain-FileRead}
use limine_eucleia.Fat.Listed.{Cached, cache_cluster_chain-Cached}

-- A table in the sector 1 of the volume, in which 2 leads to 4 and that ends; the other bytes count
-- up.
abbrev disk_byte : ℕ → ℕ
disk_byte a =
    if a == 1024 + 512 + 4
    then 4
    else if a == 1024 + 512 + 8
    then 0xff
    else if a == 1024 + 512 + 9
    then 0xff
    else if ltb a 2048
    then 0
    else a % 251

abbrev firmware : ℕ → ℕ → Option (List ℕ)
firmware block size = some (bytes_from disk_byte (block * 512) size)

abbrev volume : Volume
volume = record {
  fastest_xfer_size = 2;
  pxe = false;
  sector_size = 512;
  cached = false;
  cache = none;
  cached_block = 0;
  first_sect = 2;
  sect_count = 10;
}

abbrev fat16 : Context
fat16 = record {
  type = 16;
  bytes_per_sector = 512;
  sectors_per_cluster = 1;
  reserved_sectors = 1;
  number_of_fats = 1;
  hidden_sectors = 0;
  sectors_per_fat = 1;
  fat_start_lba = 1;
  data_start_lba = 4;
  root_directory_cluster = 0;
  root_entries = 32;
  root_start = 2;
  root_size = 2;
}

firmware-Sound : Sound disk_byte 512 firmware
firmware-Sound block size bs e = cc

geometry : Geometry volume
geometry = record {
  sectors = refl;
  some_sectors = omega arith;
  fits = omega arith;
  some_xfer = omega arith;
  room = λ k. omega arith;
}

abbrev device : Device
device = record {
  pmm = record {
    memmap = record { base = 0x10_0000; length = 0x10_0000; type = usable } ∷ [];
    max_entries = 512;
    keep_first_page = false;
    allocations_disallowed = false;
  };
  volume = volume;
}

abbrev source : Source (volume_read firmware)
source = volume_source firmware disk_byte volume geometry firmware-Sound

device-Kept : Kept firmware disk_byte volume geometry firmware-Sound device
device-Kept = record {
  pmm = device.pmm;
  cached = false;
  cache = none;
  block = 0;
  is = refl;
  fine = refl;
  valid = λ e. cc;
}

read_cluster_chain-FileRead_example :
    Ends
      (read_cluster_chain (volume_read firmware) fat16 device (2 ∷ 4 ∷ []) 510 4)
      (FileRead (volume_read firmware) source fat16 (2 ∷ 4 ∷ []) (omega arith) 510 4)
read_cluster_chain-FileRead_example =
    read_cluster_chain-FileRead (volume_read firmware) source fat16 (2 ∷ 4 ∷ []) (omega arith)
      (omega arith, (omega arith, tt)) device 510 4 (omega arith) device-Kept

cache_cluster_chain-Cached_example :
    Ends
      (cache_cluster_chain (volume_read firmware) fat16 device 2)
      (Cached (volume_read firmware) source fat16 (omega arith) 7 2)
cache_cluster_chain-Cached_example =
    cache_cluster_chain-Cached (volume_read firmware) source fat16 (omega arith) 7 device 2 refl
      refl device-Kept

-- A boot sector with "FAT" at 0x36.
abbrev boot_sector : List ℕ
boot_sector =
    replicate 11 0
    ++ (0 ∷ 2 ∷ 1 ∷ 1 ∷ 0 ∷ 1 ∷ 32 ∷ 0 ∷ 0 ∷ 40 ∷ 248 ∷ 40 ∷ 0 ∷ [])
    ++ replicate 30 0
    ++ (70 ∷ 65 ∷ 84 ∷ 49 ∷ 54 ∷ [])
    ++ replicate 453 0

init_context_run :
    init_context boot_sector
    ≡ some (record fat16 { sectors_per_fat = 40; data_start_lba = 43; root_start = 41 })
unfolding init_context div_roundup
init_context_run = refl

boot_sector-All : All (λ b. b < 256) boot_sector
boot_sector-All = All-all (λ b. b < 256) (λ b. ltb b 256) (λ b e. ltb→lt b 256 e) boot_sector refl

init_context-ValidContext_example : IfAny ValidContext (init_context boot_sector)
init_context-ValidContext_example = init_context-ValidContext boot_sector boot_sector-All
