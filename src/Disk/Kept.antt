-- ===== src/Disk/Kept.antt =====
-- What cache_block() of common/lib/part.s2.c keeps true of the cache: it holds a block of the disk.
use limine_eucleia.Prelude.{
  ℕ, ◌+◌, ◌*◌, ◌/◌, ◌%◌, ◌<◌, ◌≡◌, ◌≢◌, ◌∙◌, ap, sym, subst, refl, Bool, true, false, ◌&&◌, Option,
  none, some, List, ◌++◌, arith, inl, inr, ltb, ◌==◌, length, drop, ok, Option-cases, Ends,
  Ends-bind, Ends-if, sum_by,
}
use mathlib.Core.Bool.{false≢true}
use limine_eucleia.Word.{word}
use limine_eucleia.Memmap.Entry.{overflows}
use limine_eucleia.Memmap.Alloc.Range.{Pmm}
use limine_eucleia.Memmap.Alloc.High.{ext_mem_alloc}
use limine_eucleia.Memmap.Alloc.Freed.{ext_mem_alloc-Served}
use limine_eucleia.Disk.Bytes.{bytes_from}
use limine_eucleia.Disk.Volume.{
  Volume, Device, unknown, block_sector, transfer, with_cache, filled, read_sectors, fill_from,
  cache_block,
}
use limine_eucleia.Disk.Cached.{
  block_bytes, Covers, Geometry, Placed, Sized, IsSome, block_sector-Placed, transfer-Sized,
  block_sector-IsSome, transfer-IsSome,
}

-- What a successful ReadBlocks() gives of a disk with these bytes and this size of sectors.
abbrev pub Sound : (byte : ℕ → ℕ) (sector_size : ℕ) → ((block size : ℕ) → Option (List ℕ)) → Type 0
Sound byte sector_size read_blocks =
    (block size : ℕ) (bs : List ℕ)
    → read_blocks block size ≡ some bs
    → bs ≡ bytes_from byte (block * sector_size) size

module _ (read_blocks : (block size : ℕ) → Option (List ℕ)) (byte : ℕ → ℕ) (v : Volume)
    (g : Geometry v) (sound : Sound byte v.sector_size read_blocks) where
  -- The volume with another cache.
  abbrev pub at : Pmm → (cached : Bool) → (cache : Option (List ℕ)) → (cached_block : ℕ) → Device
  at p cached cache cached_block = record {
    pmm = p;
    volume = record v { cached = cached; cache = cache; cached_block = cached_block };
  }

  -- The cache holds all of a block that the volume has.
  pub record Holds (cache : Option (List ℕ)) (block : ℕ) : Type 0 where
    pub n : ℕ
    pub behind : List ℕ
    pub is : cache ≡ some (bytes_from byte (v.first_sect * 512 + block * block_bytes v) n ++ behind)
    pub covers : Covers v block n

  pub record Kept (d : Device) : Type 0 where
    pub pmm : Pmm
    pub cached : Bool
    pub cache : Option (List ℕ)
    pub block : ℕ
    pub is : d ≡ at pmm cached cache block
    pub fine : sum_by overflows pmm.memmap ≡ 0
    pub valid : cached ≡ true → Holds cache block

  -- A volume of known size that begins at a sector, on a disk that answers.
  pub record Able : Type 0 where
    pub known : v.sect_count ≢ unknown
    pub sized : v.sect_count * 512 < word
    pub aligned : v.first_sect % (v.sector_size / 512) ≡ 0
    pub answers : (block size : ℕ) → (bs : List ℕ) × (read_blocks block size ≡ some bs)

  abbrev pub Starts : (block : ℕ) → Type 0
  Starts block = block * block_bytes v < v.sect_count * 512

  pub record Got (block : ℕ) (r : Device × Bool) : Type 0 where
    pub kept : Kept r.0
    pub hit : r.1 ≡ true → (kept.cached ≡ true) × (kept.block ≡ block)
    pub served : Able → Starts block → r.1 ≡ true

  module _ (p : Pmm) (b block : ℕ) (old : List ℕ) (fine : sum_by overflows p.memmap ≡ 0) where
    missed : ((a : Able) → Starts block → ⊥) → Got block (at p false (some old) b, false)
    missed never = record {
      kept = record {
        pmm = p;
        cached = false;
        cache = some old;
        block = b;
        is = refl;
        fine = fine;
        valid = λ e. absurd (false≢true e);
      };
      hit = λ e. absurd (false≢true e);
      served = λ a s. absurd (never a s);
    }

    filled-Got :
        (rs count : ℕ)
        → rs * v.sector_size ≡ v.first_sect * 512 + block * block_bytes v
        → Covers v block (count * v.sector_size)
        → Got block
            (filled (at p false (some old) b) block old (read_blocks rs (count * v.sector_size)))
    filled-Got rs count e c = elim (Option-cases (read_blocks rs (count * v.sector_size))) [
      | inl q ↦
          rw q (missed (λ a s. none_answered (sym q ∙ (a.answers rs (count * v.sector_size)).1)))
      | inr q ↦ rw (q.1) (record {
        kept = record {
          pmm = p;
          cached = true;
          cache = some (q.0 ++ drop (length q.0) old);
          block = block;
          is = refl;
          fine = fine;
          valid = λ f. record {
            n = count * v.sector_size;
            behind = drop (length q.0) old;
            is =
                ap (λ (t : List ℕ). some (t ++ drop (length q.0) old))
                  (sound rs (count * v.sector_size) q.0 q.1 ∙ rw e refl);
            covers = c;
          };
        };
        hit = λ f. (refl, refl);
        served = λ a t. refl;
      })
    ]
      where
        none_answered : {bs : List ℕ} → none ≡ some bs → ⊥
        none_answered e = cc

    read_sectors-Got :
        (rs : ℕ) (o : Option ℕ)
        → rs * v.sector_size ≡ v.first_sect * 512 + block * block_bytes v
        → Sized v block o
        → ((a : Able) → Starts block → IsSome o)
        → Got block (read_sectors read_blocks (at p false (some old) b) block old rs o)
    read_sectors-Got rs none e s i = missed i
    read_sectors-Got rs (some count) e s i = filled-Got rs count e s

    fill_from-Got :
        (o : Option ℕ)
        → Placed v block o
        → ((a : Able) → Starts block → IsSome o)
        → Got block (fill_from read_blocks (at p false (some old) b) block old o)
    fill_from-Got none q i = missed i
    fill_from-Got (some rs) q i =
        read_sectors-Got rs (transfer v rs) q.0 (transfer-Sized v g block rs q.1)
          (λ a s. transfer-IsSome v g block a.known a.sized s rs q.1)

  -- With a cache of its own, that holds nothing yet.
  record Fresh (b : ℕ) (r : Device × List ℕ) : Type 0 where
    pmm : Pmm
    is : r.0 ≡ at pmm false (some r.1) b
    fine : sum_by overflows pmm.memmap ≡ 0

  with_cache-Fresh :
      (p : Pmm) (c : Option (List ℕ)) (b : ℕ)
      → sum_by overflows p.memmap ≡ 0
      → Ends (with_cache (at p false c b)) (Fresh b)
  with_cache-Fresh p (some c) b fine = record { pmm = p; is = refl; fine = fine }
  with_cache-Fresh p none b fine =
      let fits : ltb (block_bytes v) word ≡ true = ground (arith, g.fits) in
      rw (fits, with_cache)
        (Ends-bind (ext_mem_alloc p (block_bytes v)) _ _ (Fresh b)
          (ext_mem_alloc-Served p fine (block_bytes v))
          (λ r s. record { pmm = r.1; is = refl; fine = s.ends }))

  pub cache_block-Got :
      (p : Pmm) (cached : Bool) (c : Option (List ℕ)) (b block : ℕ)
      → sum_by overflows p.memmap ≡ 0
      → (cached ≡ true → Holds c b)
      → Ends (cache_block read_blocks (at p cached c b) block) (Got block)
  unfolding cache_block
  cache_block-Got p cached c b block fine valid =
      Ends-if (cached && block == b) (ok (at p cached c b, true)) _ (Got block)
        (λ e. record {
          kept = record {
            pmm = p;
            cached = cached;
            cache = c;
            block = b;
            is = refl;
            fine = fine;
            valid = valid;
          };
          hit = λ f. (ground (arith, e), ground (arith, e));
          served = λ a s. refl;
        })
        (λ e.
          Ends-bind (with_cache (at p false c b)) _ (Fresh b) (Got block)
            (with_cache-Fresh p c b fine)
            (λ r f.
              subst
                (λ (d : Device).
                  Got block (fill_from read_blocks d block r.1 (block_sector d.volume block)))
                (sym f.is)
                (fill_from-Got f.pmm b block r.1 f.fine (block_sector v block)
                  (block_sector-Placed v g block)
                  (λ a s. block_sector-IsSome v g block a.known a.sized s a.aligned))))
