-- ===== src/Disk/Source.antt =====
-- What a file system relies on when it reads from a volume, and that volume_read() of
-- common/lib/part.s2.c offers it.
use limine_eucleia.Prelude.{
  ℕ, ◌+◌, ◌*◌, ◌≤◌, ◌<◌, ◌≡◌, ◌∙◌, ap, subst, sym, Option, none, some, List, arith, sum_by, Ends,
  Ends_mono,
}
use limine_eucleia.Word.{word}
use limine_eucleia.Memmap.Entry.{overflows}
use limine_eucleia.Memmap.Alloc.Range.{Pmm}
use limine_eucleia.Disk.Bytes.{bytes_from, bytes_from-same}
use limine_eucleia.Disk.Volume.{Volume, Device, Rest, volume_read}
use limine_eucleia.Disk.Cached.{Geometry, IsSome}
use limine_eucleia.Disk.Kept.{Sound, Able, Kept}
use limine_eucleia.Disk.Read.{Bytes, VolumeRead, volume_read-VolumeRead}

-- The bytes asked for, or none.
abbrev pub Gives : (byte : ℕ → ℕ) (loc count : ℕ) → Option (List ℕ) → Type 0
Gives byte loc count none = Unit
Gives byte loc count (some bs) = bs ≡ bytes_from byte loc count

pub record Source (read : Rest) : Type 1 where
  pub Good : Device → Type 0
  pub Answers : Type 0
  pub size : ℕ
  pub byte : ℕ → ℕ
  pub reads :
      (d : Device) (loc count : ℕ)
      → Good d
      → loc + count < word
      → Ends (read d loc count) (λ r.
        Good r.0
        × (Gives byte loc count r.1 × (Answers → 0 < count → loc + count ≤ size → IsSome r.1)))
  pub fine : (d : Device) → Good d → sum_by overflows d.pmm.memmap ≡ 0
  pub moved :
      (d : Device) (p : Pmm) → Good d → sum_by overflows p.memmap ≡ 0 → Good (record d { pmm = p })

module _ (read_blocks : (block size : ℕ) → Option (List ℕ)) (byte : ℕ → ℕ) (v : Volume)
    (g : Geometry v) (sound : Sound byte v.sector_size read_blocks) where
  -- The bytes of the volume, from its first one on.
  abbrev pub volume_byte : ℕ → ℕ
  volume_byte a = byte (v.first_sect * 512 + a)

  pub Bytes-Gives :
      (loc count : ℕ) (o : Option (List ℕ))
      → Bytes read_blocks byte v loc count o
      → Gives volume_byte loc count o
  Bytes-Gives loc count none b = tt
  Bytes-Gives loc count (some bs) b =
      b
      ∙ bytes_from-same byte volume_byte (v.first_sect * 512 + loc) loc count
          (λ i l. ap byte (omega arith))

  abbrev pub volume_source : Source (volume_read read_blocks)
  volume_source = record {
    Good = Kept read_blocks byte v g sound;
    Answers = Able read_blocks byte v g sound;
    size = v.sect_count * 512;
    byte = volume_byte;
    reads = λ d loc count k w.
        Ends_mono (volume_read read_blocks d loc count)
          (VolumeRead read_blocks byte v g sound loc count) _
          (λ r q. (q.kept, (Bytes-Gives loc count r.1 q.bytes, q.served)))
          (volume_read-VolumeRead read_blocks byte v g sound d loc count k w);
    fine = λ d k. subst (λ (x : Device). sum_by overflows x.pmm.memmap ≡ 0) (sym k.is) k.fine;
    moved = λ d p k f. record {
      pmm = p;
      cached = k.cached;
      cache = k.cache;
      block = k.block;
      is = ap (λ (x : Device). record x { pmm = p }) k.is;
      fine = f;
      valid = k.valid;
    };
  }
