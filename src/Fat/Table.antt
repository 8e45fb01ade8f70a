-- ===== src/Fat/Table.antt =====
-- read_cluster_from_map(), cache_cluster_chain() and read_cluster_chain() of
-- common/fs/fat32.s2.c.
use limine_eucleia.Prelude.{
  ℕ, zero, suc, ◌+◌, ◌-◌, ◌*◌, ◌/◌, ◌%◌, ◌^◌, Bool, ◌||◌, Option, none, some, List, [], ◌∷◌, ltb,
  ◌==◌, if◌then◌else◌, get_elem?, Result, ok, panic, out_of_fuel, ◌>>=◌,
}
use limine_eucleia.Word.{word, checked_mul}
use limine_eucleia.Memmap.Alloc.Range.{Pmm, pmm_free}
use limine_eucleia.Memmap.Alloc.High.{ext_mem_alloc_counted}
use limine_eucleia.Disk.Volume.{Device, unknown, Rest, joined, chunk_size}
use limine_eucleia.Fat.Context.{Context, u16, u32}

abbrev pub with_pmm : Device → Pmm → Device
with_pmm d p = record d { pmm = p }

abbrev pub cluster_limit : Context → ℕ
cluster_limit c =
    if c.type == 12
    then 0xfef
    else if c.type == 16
    then 0xffef
    else if c.type == 32
    then 0xfffffef
    else 0

abbrev pub fat_size : Context → ℕ
fat_size c = c.sectors_per_fat * c.bytes_per_sector

abbrev pub fat_base : Context → ℕ
fat_base c = c.fat_start_lba * c.bytes_per_sector

abbrev pub fat_entries : Context → ℕ
fat_entries c =
    if c.type == 12
    then fat_size c * 2 / 3
    else if c.type == 16
    then fat_size c / 2
    else fat_size c / 4

abbrev pub max_chain_length : ℕ
max_chain_length = 16777216

abbrev pub max_clusters : Context → ℕ
max_clusters c =
    let most =
      if ltb max_chain_length (cluster_limit c - 1)
      then max_chain_length
      else cluster_limit c - 1 in
    if ltb (fat_entries c) most then fat_entries c else most

-- By the sectors that the volume has; `none` is the NULL of an overflow.
abbrev pub readable_cluster_limit : Context → (sect_count : ℕ) → Option ℕ
readable_cluster_limit c sect_count =
    if sect_count == unknown then some (cluster_limit c) else elim (checked_mul sect_count 512) [
      | none ↦ none
      | some bytes ↦
          let volume_sectors = bytes / c.bytes_per_sector in
          let data_clusters =
            if ltb c.data_start_lba volume_sectors
            then (volume_sectors - c.data_start_lba) / c.sectors_per_cluster
            else 0 in
          some (
            if ltb (data_clusters + 1) (cluster_limit c)
            then data_clusters + 1
            else cluster_limit c)
    ]

-- Where the entry of a cluster is in the FAT, how many bytes it has, and its value in them.
abbrev pub entry_offset : Context → (cluster : ℕ) → ℕ
entry_offset c cluster =
    if c.type == 12
    then cluster + cluster / 2
    else if c.type == 16
    then cluster * 2
    else cluster * 4

abbrev pub entry_size : Context → ℕ
entry_size c = if c.type == 12 then 2 else if c.type == 16 then 2 else 4

abbrev pub entry_value : Context → (cluster : ℕ) → List ℕ → ℕ
entry_value c cluster bs =
    if c.type == 12
    then (if cluster % 2 == 0 then u16 bs 0 % 4096 else u16 bs 0 / 16)
    else if c.type == 16
    then u16 bs 0
    else u32 bs 0 % 2 ^ 28

abbrev pub from_bytes : Context → (cluster : ℕ) → Device × Option (List ℕ) → Device × Option ℕ
from_bytes c cluster (d, none) = (d, none)
from_bytes c cluster (d, some bs) = (d, some (entry_value c cluster bs))

-- A cluster number that has no cluster ends a chain.
abbrev pub ends_chain : Context → (cluster : ℕ) → Bool
ends_chain c cluster = ltb cluster 2 || ltb (cluster_limit c) cluster

abbrev pub block_size : Context → ℕ
block_size c = c.sectors_per_cluster * c.bytes_per_sector

abbrev pub cluster_base : Context → (cluster : ℕ) → ℕ
cluster_base c cluster =
    (c.data_start_lba + (cluster - 2) * c.sectors_per_cluster) * c.bytes_per_sector

-- An array in memory: its address, and its numbers.
pub record Chain : Type 0 where
  pub address : ℕ
  pub clusters : List ℕ

-- volume_read().
module _ (read : Rest) (c : Context) where
  unfoldable pub read_cluster_from_map : Device → (cluster : ℕ) → Result (Device × Option ℕ)
  read_cluster_from_map d cluster =
      if ltb (fat_size c) (entry_offset c cluster + entry_size c)
      then ok (d, none)
      else read d (fat_base c + entry_offset c cluster) (entry_size c) >>= λ r.
          ok (from_bytes c cluster r)

  abbrev pub Count : Type 0
  Count = Device → (cluster : ℕ) → Result (Device × Option ℕ)

  abbrev pub one_more : Device × Option ℕ → Device × Option ℕ
  one_more (d, none) = (d, none)
  one_more (d, some n) = (d, some (suc n))

  -- The chain goes on at a number, or its length is 1.
  abbrev pub count_next : Count → Device × Option ℕ → Result (Device × Option ℕ)
  count_next again (d, none) = ok (d, none)
  count_next again (d, some next) =
      if ends_chain c next then ok (d, some 1) else (again d next >>= λ r. ok (one_more r))

  -- The chain length, with what is left of the maximum.
  unfoldable pub count_chain : (readable left : ℕ) → Count
  count_chain readable zero d cluster = ok (d, none)
  count_chain readable (suc left) d cluster =
      if ltb readable cluster
      then ok (d, none)
      else (read_cluster_from_map d cluster >>= count_next (count_chain readable left))

  abbrev pub in_front : (cluster : ℕ) → Device × Option (List ℕ) → Device × Option (List ℕ)
  in_front cluster (d, none) = (d, none)
  in_front cluster (d, some cs) = (d, some (cluster ∷ cs))

  abbrev pub ListFrom : Type 0
  ListFrom = Device → (cluster : ℕ) → Result (Device × Option (List ℕ))

  abbrev pub list_next :
      ListFrom → (cluster : ℕ) → Device × Option ℕ → Result (Device × Option (List ℕ))
  list_next again cluster (d, none) = ok (d, none)
  list_next again cluster (d, some next) = again d next >>= λ r. ok (in_front cluster r)

  -- The second pass, which fills the array.
  unfoldable pub list_chain : (chain_length : ℕ) → ListFrom
  list_chain zero d cluster = ok (d, some [])
  list_chain (suc n) d cluster =
      read_cluster_from_map d cluster >>= list_next (list_chain n) cluster

  abbrev pub keep_chain :
      (address chain_length : ℕ) → Device × Option (List ℕ) → Result (Device × Option Chain)
  keep_chain address n (d, none) = pmm_free d.pmm address (n * 4) >>= λ p. ok (with_pmm d p, none)
  keep_chain address n (d, some cs) = ok (d, some (record { address = address; clusters = cs }))

  abbrev pub fill_chain : (initial_cluster : ℕ) → Device × Option ℕ → Result (Device × Option Chain)
  fill_chain initial (d, none) = ok (d, none)
  fill_chain initial (d, some n) = ext_mem_alloc_counted d.pmm n 4 >>= λ r.
      list_chain n (with_pmm d r.1) initial >>= keep_chain r.0 n

  abbrev pub chain_within :
      Device → (initial_cluster : ℕ) → Option ℕ → Result (Device × Option Chain)
  chain_within d initial none = ok (d, none)
  chain_within d initial (some readable) =
      count_chain readable (max_clusters c) d initial >>= fill_chain initial

  -- `none` is NULL.
  unfoldable pub cache_cluster_chain :
      Device → (initial_cluster : ℕ) → Result (Device × Option Chain)
  cache_cluster_chain d initial =
      if ends_chain c initial
      then ok (d, none)
      else chain_within d initial (readable_cluster_limit c d.volume.sect_count)

  abbrev pub then_more :
      Rest → (pos chunk left : ℕ) → Device × Option (List ℕ) → Result (Device × Option (List ℕ))
  then_more again pos chunk left (d, none) = ok (d, none)
  then_more again pos chunk left (d, some bs) =
      again d ((pos + chunk) % word) (left - chunk) >>= λ s. ok (joined bs s)

  abbrev pub read_in_cluster :
      Rest → Device → (pos left : ℕ) → Option ℕ → Result (Device × Option (List ℕ))
  read_in_cluster again d pos left none = ok (d, none)
  read_in_cluster again d pos left (some cluster) =
      let chunk = chunk_size (block_size c) pos left in
      if ltb cluster 2
      then ok (d, none)
      else (read d (cluster_base c cluster + pos % block_size c) chunk
          >>= then_more again pos chunk left)

  -- `pos` is `loc + progress`, and `left` is `count - progress`.
  unfoldable pub read_clusters : (chain : List ℕ) → (fuel : ℕ) → Rest
  read_clusters chain zero d pos left = if left == 0 then ok (d, some []) else out_of_fuel
  read_clusters chain (suc fuel) d pos left =
      if left == 0
      then ok (d, some [])
      else read_in_cluster (read_clusters chain fuel) d pos left
          (get_elem? chain (pos / block_size c))

  unfoldable pub read_cluster_chain :
      Device → (chain : List ℕ) → (loc count : ℕ) → Result (Device × Option (List ℕ))
  read_cluster_chain d chain loc count = read_clusters chain count d loc count

  -- `struct fat32_file_handle` keeps the chain; the number of bytes is the count.
  unfoldable pub fat32_read : Device → (chain : List ℕ) → (loc count : ℕ) → Result (Device × List ℕ)
  fat32_read d chain loc count = read_cluster_chain d chain loc count >>= λ r. elim r.1 [
    | none ↦ panic
    | some bs ↦ ok (r.0, bs)
  ]
