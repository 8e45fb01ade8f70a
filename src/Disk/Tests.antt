-- ===== src/Disk/Tests.antt =====
-- A run of volume_read(), and its theorem at a concrete volume.
use limine_eucleia.Prelude.{
  ℕ, ◌*◌, ◌%◌, refl, Option, false, none, some, List, [], ◌∷◌, arith, Ends,
}
use limine_eucleia.Memmap.Entry.{usable}
use limine_eucleia.Memmap.Alloc.Range.{Pmm}
use limine_eucleia.Disk.Bytes.{bytes_from}
use limine_eucleia.Disk.Volume.{Volume, Device, volume_read}
use limine_eucleia.Disk.Cached.{Geometry}
use limine_eucleia.Disk.Kept.{Sound, Kept}
use limine_eucleia.Disk.Read.{VolumeRead, volume_read-VolumeRead}

abbrev memory : Pmm
memory = record {
  memmap = record { base = 0x10_0000; length = 0x10_0000; type = usable } ∷ [];
  max_entries = 512;
  keep_first_page = false;
  allocations_disallowed = false;
}

-- A disk whose bytes count up, and a partition of 10 sectors from sector 4 on.
abbrev firmware : ℕ → ℕ → Option (List ℕ)
firmware block size = some (bytes_from (λ a. a % 251) (block * 1024) size)

abbrev partition : Volume
partition = record {
  fastest_xfer_size = 2;
  pxe = false;
  sector_size = 1024;
  cached = false;
  cache = none;
  cached_block = 0;
  first_sect = 4;
  sect_count = 10;
}

firmware-Sound : Sound (λ a. a % 251) 1024 firmware
firmware-Sound block size bs e = cc

partition_geometry : Geometry partition
partition_geometry = record {
  sectors = refl;
  some_sectors = omega arith;
  fits = omega arith;
  some_xfer = omega arith;
  room = λ k. omega arith;
}

abbrev started : Device
started = record { pmm = memory; volume = partition }

started-Kept : Kept firmware (λ a. a % 251) partition partition_geometry firmware-Sound started
started-Kept = record {
  pmm = memory;
  cached = false;
  cache = none;
  block = 0;
  is = refl;
  fine = refl;
  valid = λ e. cc;
}

volume_read-VolumeRead_example :
    Ends
      (volume_read firmware started 2040 100)
      (VolumeRead firmware (λ a. a % 251) partition partition_geometry firmware-Sound 2040 100)
volume_read-VolumeRead_example =
    volume_read-VolumeRead firmware (λ a. a % 251) partition partition_geometry firmware-Sound
      started 2040 100 started-Kept (omega arith)
