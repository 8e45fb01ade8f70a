-- ===== src/Fat/Valid.antt =====
-- What fat32_init_context() of common/fs/fat32.s2.c makes sure of.
use limine_eucleia.Prelude.{
  ℕ, ◌+◌, ◌-◌, ◌*◌, ◌/◌, ◌%◌, ◌^◌, ◌≤◌, ◌<◌, ◌≡◌, ◌≢◌, ◌⊎◌, refl, inl, inr, Bool, true, false, not,
  ◌&&◌, ◌||◌, Option, none, some, List, arith, ltb, ltb→lt, leb, All, All-get_or, ◌==◌,
  if◌then◌else◌, get_or, Bool-cases,
}
use native.Mathlib.Nat.{mod-eq_of_lt}
use limine_eucleia.Word.{div_roundup}
use limine_eucleia.Fat.Context.{
  Context, bpb_bytes_per_sector, bpb_sectors_per_cluster, bpb_reserved_sectors, bpb_fats_count,
  bpb_root_entries_count, bpb_sectors_count, metadata_sects, signature_valid,
  sector_per_cluster_valid, bytes_per_sector_valid, type_of, fat_size_of, context_at, with_root,
  with_fat, init_context,
}
use limine_eucleia.Disk.Cached.{Roundup, div_roundup-Roundup}

abbrev pub IfAny : (Context → Type 0) → Option Context → Type 0
IfAny P none = Unit
IfAny P (some c) = P c

IfAny-refuse :
    (P : Context → Type 0) (b : Bool) (o : Option Context)
    → (b ≡ false → IfAny P o)
    → IfAny P (if b then none else o)
IfAny-refuse P true o h = tt
IfAny-refuse P false o h = h refl

-- A file system of one of the three types whose tables and root directory lie before its data, all
-- below 2^32 sectors.
pub record ValidContext (c : Context) : Type 0 where
  pub known_type : ((c.type ≡ 12) ⊎ (c.type ≡ 16)) ⊎ (c.type ≡ 32)
  pub sectors : (512 ≤ c.bytes_per_sector) × (c.bytes_per_sector ≤ 4096)
  pub clusters : (1 ≤ c.sectors_per_cluster) × (c.sectors_per_cluster ≤ 128)
  pub fats : (1 ≤ c.number_of_fats) × (c.number_of_fats ≤ 4)
  pub boot_sector : 1 ≤ c.fat_start_lba
  pub some_fat : 0 < c.sectors_per_fat
  pub tables : c.fat_start_lba + c.number_of_fats * c.sectors_per_fat ≡ c.root_start
  pub root_first : c.root_start ≤ c.data_start_lba
  pub root_fits :
      c.type ≢ 32
      → (0 < c.root_entries)
        × (c.root_entries * 32 ≤ (c.data_start_lba - c.root_start) * c.bytes_per_sector)
  pub narrow : c.data_start_lba < 2 ^ 32

type_of_known :
    (bpb : List ℕ) (n : ℕ) → ((type_of bpb n ≡ 12) ⊎ (type_of bpb n ≡ 16)) ⊎ (type_of bpb n ≡ 32)
type_of_known bpb n = elim (Bool-cases (ltb n 4085)) [
  | inl c ↦ rw c (inl (inl refl))
  | inr c ↦
      rw c (elim (Bool-cases (ltb n 65525)) [
        | inl d ↦ rw d (inl (inr refl))
        | inr d ↦ rw d (inr refl)
      ])
]

valid_sectors :
    (n : ℕ) → not (n == 512 || n == 1024 || n == 2048 || n == 4096) ≡ false → (512 ≤ n) × (n ≤ 4096)
valid_sectors n e = ground (arith, e)

valid_clusters :
    (n : ℕ)
    → not (n == 1 || n == 2 || n == 4 || n == 8 || n == 16 || n == 32 || n == 64 || n == 128)
      ≡ false
    → (1 ≤ n) × (n ≤ 128)
valid_clusters n e = ground (arith, e)

valid_fats : (n : ℕ) → (n == 0 || ltb 4 n) ≡ false → (1 ≤ n) × (n ≤ 4)
valid_fats n e = ground (arith, e)

module _ (bpb : List ℕ) (bytes : All (λ b. b < 256) bpb) where
  abbrev Sizes : Type 0
  Sizes =
      ((512 ≤ bpb_bytes_per_sector bpb) × (bpb_bytes_per_sector bpb ≤ 4096))
      × (((1 ≤ bpb_sectors_per_cluster bpb) × (bpb_sectors_per_cluster bpb ≤ 128))
          × (((1 ≤ bpb_fats_count bpb) × (bpb_fats_count bpb ≤ 4))
              × (1 ≤ bpb_reserved_sectors bpb)))

  few_entries : bpb_root_entries_count bpb < 65536
  few_entries =
      let low : get_or bpb 17 0 < 256 = All-get_or (λ b. b < 256) bpb 17 0 bytes (omega arith) in
      let high : get_or bpb 18 0 < 256 = All-get_or (λ b. b < 256) bpb 18 0 bytes (omega arith) in
      omega (arith, low, high)

  module _ (s : Sizes) (type spf : ℕ) (k : ((type ≡ 12) ⊎ (type ≡ 16)) ⊎ (type ≡ 32))
      (some_fat : 0 < spf) (entries : type ≢ 32 → 0 < bpb_root_entries_count bpb)
      (low : bpb_reserved_sectors bpb + bpb_fats_count bpb * spf < 2 ^ 32) where
    abbrev root_start : ℕ
    root_start = bpb_reserved_sectors bpb + bpb_fats_count bpb * spf

    context_at-ValidContext :
        (size d : ℕ)
        → root_start ≤ d
        → (type ≢ 32
            → bpb_root_entries_count bpb * 32 ≤ (d - root_start) * bpb_bytes_per_sector bpb)
        → d < 2 ^ 32
        → IfAny ValidContext (context_at bpb type spf root_start size (some d))
    context_at-ValidContext size d r f n = record {
      known_type = k;
      sectors = s.0;
      clusters = s.1.0;
      fats = s.1.1.0;
      boot_sector = s.1.1.1;
      some_fat = some_fat;
      tables = refl;
      root_first = r;
      root_fits = λ t. (entries t, f t);
      narrow = n;
    }

    with_root-ValidContext :
        (o : Option ℕ)
        → Roundup (bpb_root_entries_count bpb * 32) (bpb_bytes_per_sector bpb) o
        → IfAny ValidContext (with_root bpb type spf root_start o)
    with_root-ValidContext none r = tt
    with_root-ValidContext (some n) r =
        let whole : n % 2 ^ 32 ≡ n = mod-eq_of_lt (omega (arith, r.1, few_entries)) in
        elim (Bool-cases (type == 32)) [
          | inl c ↦ rw c (
              context_at-ValidContext (n % 2 ^ 32) root_start (omega arith)
                (λ t. absurd (t (ground (arith, c)))) low)
          | inr c ↦ rw c (elim (Bool-cases (ltb (root_start + n % 2 ^ 32) (2 ^ 32))) [
            | inr d ↦ rw d tt
            | inl d ↦ rw d (
                context_at-ValidContext (n % 2 ^ 32) (root_start + n % 2 ^ 32) (omega arith)
                  (λ t.
                    let same : root_start + n % 2 ^ 32 - root_start ≡ n = omega (arith, whole) in
                    rw same (r.0))
                  (ltb→lt (root_start + n % 2 ^ 32) (2 ^ 32) d))
          ])
        ]

  with_fat-ValidContext :
      Sizes
      → (type spf : ℕ) → ((type ≡ 12) ⊎ (type ≡ 16)) ⊎ (type ≡ 32)
      → IfAny ValidContext (with_fat bpb type spf)
  with_fat-ValidContext s type spf k = IfAny-refuse ValidContext (spf == 0) _ (λ e1.
      IfAny-refuse ValidContext (not (type == 32) && bpb_root_entries_count bpb == 0) _ (λ e2.
        IfAny-refuse ValidContext
          (ltb (2 ^ 32 - 1) (bpb_reserved_sectors bpb + bpb_fats_count bpb * spf)) _
          (λ e3.
            with_root-ValidContext s type spf k (some_size spf e1)
              (entries_known type (bpb_root_entries_count bpb) e2)
              (below (bpb_reserved_sectors bpb + bpb_fats_count bpb * spf) e3)
              (div_roundup (bpb_root_entries_count bpb * 32) (bpb_bytes_per_sector bpb))
              (div_roundup-Roundup (bpb_root_entries_count bpb * 32) (bpb_bytes_per_sector bpb)
                (omega (arith, s.0)) (omega (arith, s.0))))))
    where
      some_size : (n : ℕ) → (n == 0) ≡ false → 0 < n
      some_size n e = ground (arith, e)

      entries_known : (type n : ℕ) → (not (type == 32) && n == 0) ≡ false → type ≢ 32 → 0 < n
      entries_known type n e t = ground (arith, e, t)

      below : (n : ℕ) → ltb (2 ^ 32 - 1) n ≡ false → n < 2 ^ 32
      below n e = ground (arith, e)

  -- From any bytes of a boot sector, fat32_init_context() fails or gives a context of type 12,
  -- 16 or 32 with sectors of 512 to 4096 bytes, 1 to 128 of them in a cluster, 1 to 4 tables
  -- behind at least one sector, which end where the root directory begins; the data begin there
  -- or later, below 2^32 sectors, and for types other than 32 a root directory of at least one
  -- entry fits in between.
  pub init_context-ValidContext : IfAny ValidContext (init_context bpb)
  unfolding init_context
  init_context-ValidContext = IfAny-refuse ValidContext (not (signature_valid bpb)) _ (λ e1.
      IfAny-refuse ValidContext (not (sector_per_cluster_valid bpb)) _ (λ e2.
        IfAny-refuse ValidContext (not (bytes_per_sector_valid bpb)) _ (λ e3.
          IfAny-refuse ValidContext (bpb_fats_count bpb == 0 || ltb 4 (bpb_fats_count bpb)) _ (λ e4.
            IfAny-refuse ValidContext (bpb_reserved_sectors bpb == 0) _ (λ e5.
              IfAny-refuse ValidContext (leb (bpb_sectors_count bpb) (metadata_sects bpb)) _ (λ e6.
                let n =
                  (bpb_sectors_count bpb - metadata_sects bpb) / bpb_sectors_per_cluster bpb in
                with_fat-ValidContext
                  (
                    valid_sectors (bpb_bytes_per_sector bpb) e3,
                    (
                      valid_clusters (bpb_sectors_per_cluster bpb) e2,
                      (
                        valid_fats (bpb_fats_count bpb) e4,
                        some_reserved (bpb_reserved_sectors bpb) e5,
                      ),
                    ),
                  )
                  (type_of bpb n) (fat_size_of bpb (type_of bpb n)) (type_of_known bpb n)))))))
    where
      some_reserved : (n : ℕ) → (n == 0) ≡ false → 1 ≤ n
      some_reserved n e = ground (arith, e)
