-- ===== src/Fat/Context.antt =====
-- `struct fat32_context` and fat32_init_context() of common/fs/fat32.s2.c.
use limine_eucleia.Prelude.{
  ℕ, ◌+◌, ◌-◌, ◌*◌, ◌/◌, ◌%◌, ◌^◌, Bool, not, ◌&&◌, ◌||◌, Option, none, some, List, ltb, leb, ◌==◌,
  if◌then◌else◌, get_or,
}
use limine_eucleia.Word.{div_roundup}

-- The fields but for `part`.
pub record Context : Type 0 where
  pub type : ℕ
  pub bytes_per_sector : ℕ
  pub sectors_per_cluster : ℕ
  pub reserved_sectors : ℕ
  pub number_of_fats : ℕ
  pub hidden_sectors : ℕ
  pub sectors_per_fat : ℕ
  pub fat_start_lba : ℕ
  pub data_start_lba : ℕ
  pub root_directory_cluster : ℕ
  pub root_entries : ℕ
  pub root_start : ℕ
  pub root_size : ℕ

-- Numbers of 16 and 32 bits, the low byte first.
abbrev pub u16 : List ℕ → ℕ → ℕ
u16 p i = get_or p i 0 + get_or p (i + 1) 0 * 256

abbrev pub u32 : List ℕ → ℕ → ℕ
u32 p i = u16 p i + u16 p (i + 2) * 65536

-- The fields of `struct fat32_bpb`, by their offsets.
module _ (bpb : List ℕ) where
  abbrev pub bpb_bytes_per_sector : ℕ
  bpb_bytes_per_sector = u16 bpb 11

  abbrev pub bpb_sectors_per_cluster : ℕ
  bpb_sectors_per_cluster = get_or bpb 13 0

  abbrev pub bpb_reserved_sectors : ℕ
  bpb_reserved_sectors = u16 bpb 14

  abbrev pub bpb_fats_count : ℕ
  bpb_fats_count = get_or bpb 16 0

  abbrev pub bpb_root_entries_count : ℕ
  bpb_root_entries_count = u16 bpb 17

  abbrev pub bpb_sectors_count : ℕ
  bpb_sectors_count = if u16 bpb 19 == 0 then u32 bpb 32 else u16 bpb 19

  abbrev pub bpb_sectors_per_fat : ℕ
  bpb_sectors_per_fat = if u16 bpb 22 == 0 then u32 bpb 36 else u16 bpb 22

  -- "FAT" at an offset.
  abbrev pub fat_at : ℕ → Bool
  fat_at i = get_or bpb i 0 == 70 && get_or bpb (i + 1) 0 == 65 && get_or bpb (i + 2) 0 == 84

  -- "FAT" for the smaller types, "FAT" for 32 bits, or "FAT32" for 64-bit sector counts.
  abbrev pub signature_valid : Bool
  signature_valid =
      fat_at 0x36
      || fat_at 0x52
      || (fat_at 0x03 && get_or bpb 0x06 0 == 51 && get_or bpb 0x07 0 == 50)

  abbrev pub sector_per_cluster_valid : Bool
  sector_per_cluster_valid =
      let n = bpb_sectors_per_cluster in
      n == 1 || n == 2 || n == 4 || n == 8 || n == 16 || n == 32 || n == 64 || n == 128

  abbrev pub bytes_per_sector_valid : Bool
  bytes_per_sector_valid =
      let n = bpb_bytes_per_sector in n == 512 || n == 1024 || n == 2048 || n == 4096

  abbrev pub root_dir_sects : ℕ
  root_dir_sects = (bpb_root_entries_count * 32 + (bpb_bytes_per_sector - 1)) / bpb_bytes_per_sector

  abbrev pub metadata_sects : ℕ
  metadata_sects = bpb_reserved_sectors + bpb_fats_count * bpb_sectors_per_fat + root_dir_sects

  abbrev pub type_of : (clusters_count : ℕ) → ℕ
  type_of clusters_count =
      if ltb clusters_count 4085 then 12 else if ltb clusters_count 65525 then 16 else 32

  abbrev pub fat_size_of : (type : ℕ) → ℕ
  fat_size_of type = if type == 32 then u32 bpb 36 else u16 bpb 22

  -- The sum is of 32 bits.
  abbrev pub data_start : (type root_start root_size : ℕ) → Option ℕ
  data_start type root_start root_size =
      if type == 32
      then some root_start
      else if ltb (root_start + root_size) (2 ^ 32)
      then some (root_start + root_size)
      else none

  abbrev pub context_at :
      (type sectors_per_fat root_start root_size : ℕ) → Option ℕ → Option Context
  context_at type sectors_per_fat root_start root_size none = none
  context_at type sectors_per_fat root_start root_size (some data_start_lba) = some (record {
    type = type;
    bytes_per_sector = bpb_bytes_per_sector;
    sectors_per_cluster = bpb_sectors_per_cluster;
    reserved_sectors = bpb_reserved_sectors;
    number_of_fats = bpb_fats_count;
    hidden_sectors = u32 bpb 28;
    sectors_per_fat = sectors_per_fat;
    fat_start_lba = bpb_reserved_sectors;
    data_start_lba = data_start_lba;
    root_directory_cluster = u32 bpb 44;
    root_entries = bpb_root_entries_count;
    root_start = root_start;
    root_size = root_size;
  })

  abbrev pub with_root : (type sectors_per_fat root_start : ℕ) → Option ℕ → Option Context
  with_root type sectors_per_fat root_start none = none
  with_root type sectors_per_fat root_start (some size) =
      let root_size = size % 2 ^ 32 in
      context_at type sectors_per_fat root_start root_size (data_start type root_start root_size)

  abbrev pub with_fat : (type sectors_per_fat : ℕ) → Option Context
  with_fat type sectors_per_fat =
      let root_start = bpb_reserved_sectors + bpb_fats_count * sectors_per_fat in
      if sectors_per_fat == 0
      then none
      else if not (type == 32) && bpb_root_entries_count == 0
      then none
      else if ltb (2 ^ 32 - 1) root_start
      then none
      else with_root type sectors_per_fat root_start
          (div_roundup (bpb_root_entries_count * 32) bpb_bytes_per_sector)

  abbrev pub with_type : (type : ℕ) → Option Context
  with_type type = with_fat type (fat_size_of type)

  -- From the 512 bytes of the first sector; `none` is the error code 1.
  unfoldable pub init_context : Option Context
  init_context =
      if not signature_valid
      then none
      else if not sector_per_cluster_valid
      then none
      else if not bytes_per_sector_valid
      then none
      else if bpb_fats_count == 0 || ltb 4 bpb_fats_count
      then none
      else if bpb_reserved_sectors == 0
      then none
      else if leb bpb_sectors_count metadata_sects
      then none
      else with_type (type_of ((bpb_sectors_count - metadata_sects) / bpb_sectors_per_cluster))
