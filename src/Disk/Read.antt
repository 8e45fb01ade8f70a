-- ===== src/Disk/Read.antt =====
-- volume_read() of common/lib/part.s2.c reads the bytes of the disk.
use limine_eucleia.Prelude.{
  ℕ, zero, suc, ◌+◌, ◌-◌, ◌*◌, ◌/◌, ◌%◌, ◌≤◌, ◌<◌, ◌≡◌, ◌≢◌, ◌∙◌, ap, sym, subst, refl, Bool, true,
  false, not, Option, none, some, List, ◌++◌, arith, mul_mono_left, ok, panic, suc-nonzero, Ends,
  Ends_mono, Ends-bind, Ends-if,
}
use mathlib.Core.Bool.{false≢true}
use native.Mathlib.Nat.{div-add-mod', mod-lt, mod-eq_of_lt}
use limine_eucleia.Word.{word}
use limine_eucleia.Disk.Bytes.{bytes_from, bytes_from-append, cut-bytes_from}
use limine_eucleia.Disk.Volume.{
  Volume, Device, unknown, cache_block, bytes_in_block, Rest, copied, joined, chunk_size,
  read_block, read_loop, outside_volume, no_geometry, volume_read,
}
use limine_eucleia.Disk.Cached.{block_bytes, Geometry, IsSome}
use limine_eucleia.Disk.Kept.{Sound, Able, Kept, Got, Holds, cache_block-Got}

module _ (read_blocks : (block size : ℕ) → Option (List ℕ)) (byte : ℕ → ℕ) (v : Volume) where
  -- Bytes of the volume, or none, and a device whose cache is still right.
  abbrev pub Bytes : (pos count : ℕ) → Option (List ℕ) → Type 0
  Bytes pos count none = Unit
  Bytes pos count (some bs) = bs ≡ bytes_from byte (v.first_sect * 512 + pos) count

  module _ (g : Geometry v) (sound : Sound byte v.sector_size read_blocks) where
    pub record ReadsAs (pos count : ℕ) (r : Device × Option (List ℕ)) : Type 0 where
      pub kept : Kept read_blocks byte v g sound r.0
      pub bytes : Bytes pos count r.1
      pub served : Able read_blocks byte v g sound → pos + count ≤ v.sect_count * 512 → IsSome r.1

    abbrev Within : (pos count : ℕ) → Type 0
    Within pos count = v.sect_count ≢ unknown → pos + count ≤ v.sect_count * 512

    some_block : 0 < block_bytes v
    some_block =
        let once : 1 * v.sector_size ≤ block_bytes v =
          mul_mono_left 1 v.fastest_xfer_size v.sector_size (omega (arith, g.some_xfer)) in
        omega (arith, once, g.sectors, g.some_sectors)

    chunk_fits :
        (size pos left : ℕ)
        → 0 < size
        → 0 < left
        → (0 < chunk_size size pos left)
          × (chunk_size size pos left ≤ left)
          × (pos % size + chunk_size size pos left ≤ size)
    chunk_fits size pos left h l = ground (arith, mod-lt pos h)

    copied-bytes :
        (block off chunk : ℕ) (c : Option (List ℕ))
        → Holds read_blocks byte v g sound c block
        → off + chunk ≤ block_bytes v
        → Within (block * block_bytes v + off) chunk
        → copied c off chunk
          ≡ bytes_from byte (v.first_sect * 512 + block * block_bytes v + off) chunk
    copied-bytes block off chunk c h fits w =
        ap (λ (o : Option (List ℕ)). copied o off chunk) h.is
        ∙ cut-bytes_from byte off chunk h.n (v.first_sect * 512 + block * block_bytes v) h.behind
            (h.covers (off + chunk) fits (λ k. omega (arith, w k)))

    joined-ReadsAs :
        (pos chunk left : ℕ) (front : List ℕ) (s : Device × Option (List ℕ))
        → chunk ≤ left
        → front ≡ bytes_from byte (v.first_sect * 512 + pos) chunk
        → ReadsAs (pos + chunk) (left - chunk) s
        → ReadsAs pos left (joined front s)
    joined-ReadsAs pos chunk left front (d, none) h e r = record {
      kept = r.kept;
      bytes = tt;
      served = λ a i. r.served a (omega (arith, i, h));
    }
    joined-ReadsAs pos chunk left front (d, some back) h e r =
        let next : v.first_sect * 512 + (pos + chunk) ≡ v.first_sect * 512 + pos + chunk =
          omega arith in
        let all : chunk + (left - chunk) ≡ left = omega (arith, h) in
        record {
          kept = r.kept;
          bytes =
              ap (λ (t : List ℕ). t ++ back) e
              ∙ ap (λ (t : List ℕ). bytes_from byte (v.first_sect * 512 + pos) chunk ++ t)
                  (rw next at r.bytes)
              ∙ bytes_from-append byte (v.first_sect * 512 + pos) chunk (left - chunk)
              ∙ ap (bytes_from byte (v.first_sect * 512 + pos)) all;
          served = λ a i. tt;
        }

    front-bytes :
        (pos left : ℕ)
        → 0 < left
        → Within pos left
        → (r : Device × Bool) → Got read_blocks byte v g sound (pos / block_bytes v) r
        → r.1 ≡ true
        → copied r.0.volume.cache (pos % block_bytes v) (chunk_size (block_bytes v) pos left)
          ≡ bytes_from byte (v.first_sect * 512 + pos) (chunk_size (block_bytes v) pos left)
    front-bytes pos left l inside r got e =
        let size = block_bytes v in
        let chunk = chunk_size size pos left in
        let fits = chunk_fits size pos left some_block l in
        let parts : pos / size * size + pos % size ≡ pos = div-add-mod' pos size in
        let start : v.first_sect * 512 + pos / size * size + pos % size ≡ v.first_sect * 512 + pos =
          omega (arith, parts) in
        let hit = got.hit e in
        let held : Holds read_blocks byte v g sound r.0.volume.cache (pos / size) =
          subst (λ (c : Option (List ℕ)). Holds read_blocks byte v g sound c (pos / size))
            (sym (ap (λ (d : Device). d.volume.cache) got.kept.is))
            (subst (λ (b : ℕ). Holds read_blocks byte v g sound got.kept.cache b) hit.1
              (got.kept.valid hit.0)) in
        copied-bytes (pos / size) (pos % size) chunk r.0.volume.cache held fits.2
          (λ j. omega (arith, inside j, parts, fits))
        ∙ ap (λ (t : ℕ). bytes_from byte t chunk) start

    read_block-ReadsAs :
        (again : Rest) (d : Device) (pos left : ℕ)
        → 0 < left
        → pos + left < word
        → Within pos left
        → Kept read_blocks byte v g sound d
        → ((d' : Device) (pos' left' : ℕ)
            → left' < left
            → pos' + left' < word
            → Within pos' left'
            → Kept read_blocks byte v g sound d'
            → Ends (again d' pos' left') (ReadsAs pos' left'))
        → Ends (read_block read_blocks (block_bytes v) again d pos left) (ReadsAs pos left)
    read_block-ReadsAs again d pos left l w inside k h =
        let size = block_bytes v in
        let chunk = chunk_size size pos left in
        let fits = chunk_fits size pos left some_block l in
        let parts = div-add-mod' pos size in
        let next : (pos + chunk) % word ≡ pos + chunk = mod-eq_of_lt (omega (arith, w, fits)) in
        Ends-bind (cache_block read_blocks d (pos / size)) _
          (Got read_blocks byte v g sound (pos / size)) (ReadsAs pos left)
          (subst
            (λ (e : Device).
              Ends (cache_block read_blocks e (pos / size))
                (Got read_blocks byte v g sound (pos / size)))
            (sym k.is)
            (cache_block-Got read_blocks byte v g sound k.pmm k.cached k.cache k.block (pos / size)
              k.fine k.valid))
          (λ r got.
            Ends-if (not r.1) (ok (r.0, none)) _ (ReadsAs pos left)
              (λ e. record {
                kept = got.kept;
                bytes = tt;
                served = λ a i. absurd (
                    false≢true
                      (sym (ground (arith, e)) ∙ got.served a (omega (arith, parts, i, l))));
              })
              (λ e.
                let front = front-bytes pos left l inside r got (ground (arith, e)) in
                Ends-bind (again r.0 ((pos + chunk) % word) (left - chunk)) _
                  (ReadsAs (pos + chunk) (left - chunk)) (ReadsAs pos left)
                  (rw next (
                    h r.0 (pos + chunk) (left - chunk) (omega (arith, fits, l))
                      (omega (arith, w, fits)) (λ j. omega (arith, inside j, fits)) got.kept))
                  (λ s rs.
                    joined-ReadsAs pos chunk left (copied r.0.volume.cache (pos % size) chunk) s
                      fits.1 front rs)))

    read_loop-ReadsAs :
        (fuel : ℕ) (d : Device) (pos left : ℕ)
        → left ≤ fuel
        → pos + left < word
        → Within pos left
        → Kept read_blocks byte v g sound d
        → Ends (read_loop read_blocks fuel d pos left) (ReadsAs pos left)
    unfolding read_loop
    read_loop-ReadsAs fuel d pos zero h w inside k = none_left fuel d pos k
      where
        none_left :
            (fuel : ℕ) (d : Device) (pos : ℕ)
            → Kept read_blocks byte v g sound d
            → Ends (read_loop read_blocks fuel d pos 0) (ReadsAs pos 0)
        none_left zero d pos k = record { kept = k; bytes = refl; served = λ a i. tt }
        none_left (suc fuel) d pos k = record { kept = k; bytes = refl; served = λ a i. tt }
    read_loop-ReadsAs zero d pos (suc left) h w inside k = absurd (omega (arith, h))
    read_loop-ReadsAs (suc fuel) d pos (suc left) h w inside k =
        let size : bytes_in_block d.volume ≡ block_bytes v =
          ap (λ (e : Device). bytes_in_block e.volume) k.is ∙ mod-eq_of_lt g.fits in
        rw (suc-nonzero left) (
          subst
            (λ (n : ℕ).
              Ends (read_block read_blocks n (read_loop read_blocks fuel) d pos (suc left))
                (ReadsAs pos (suc left)))
            (sym size)
            (read_block-ReadsAs (read_loop read_blocks fuel) d pos (suc left) (omega arith) w inside
              k
              (λ d' pos' left' less w' inside' k'.
                read_loop-ReadsAs fuel d' pos' left' (omega (arith, less, h)) w' inside' k')))

    -- Bytes of the volume, which a disk that answers gives for every part of the volume.
    pub record VolumeRead (loc count : ℕ) (r : Device × Option (List ℕ)) : Type 0 where
      pub kept : Kept read_blocks byte v g sound r.0
      pub bytes : Bytes loc count r.1
      pub served :
          Able read_blocks byte v g sound
          → 0 < count
          → loc + count ≤ v.sect_count * 512
          → IsSome r.1

    geometry_known : no_geometry v ≡ false
    geometry_known = ground (arith, g.some_xfer, g.sectors, g.some_sectors)

    inside_volume : (loc count : ℕ) → outside_volume v loc count ≡ false → Within loc count
    inside_volume loc count o j = ground (arith, o, j)

    not_outside :
        (loc count : ℕ)
        → Able read_blocks byte v g sound
        → 0 < count
        → loc + count ≤ v.sect_count * 512
        → outside_volume v loc count ≡ false
    not_outside loc count a c i = ground (arith, a.known, a.sized, c, i)

    refused :
        (d : Device) (loc count : ℕ)
        → Kept read_blocks byte v g sound d
        → (Able read_blocks byte v g sound → 0 < count → loc + count ≤ v.sect_count * 512 → ⊥)
        → VolumeRead loc count (d, none)
    refused d loc count k never = record {
      kept = k;
      bytes = tt;
      served = λ a c i. absurd (never a c i);
    }

    -- On a device whose cache holds what it says, for a disk that gives its bytes or fails, a
    -- volume whose sectors are multiples of 512 bytes, whose block size is of 64 bits and not 0,
    -- and whose end is below 2^64 sectors, and a range that ends below 2^64, volume_read() comes
    -- to an end: it panics, or returns false, or fills the buffer with the bytes of the range,
    -- counted from the first sector of the volume; the cache holds what it says afterwards, and
    -- no entry of the memory map overflows; and where the disk always answers and the volume
    -- begins at a sector of the disk and has a known size of less than 2^64 bytes, it does not
    -- return false for a nonempty range inside of it.
    pub volume_read-VolumeRead :
        (d : Device) (loc count : ℕ)
        → Kept read_blocks byte v g sound d
        → loc + count < word
        → Ends (volume_read read_blocks d loc count) (VolumeRead loc count)
    unfolding volume_read
    volume_read-VolumeRead d loc count k w =
        let geometry : no_geometry d.volume ≡ false =
          ap (λ (x : Device). no_geometry x.volume) k.is ∙ geometry_known in
        let range : outside_volume d.volume loc count ≡ outside_volume v loc count =
          ap (λ (x : Device). outside_volume x.volume loc count) k.is in
        Ends-if d.volume.pxe panic _ (VolumeRead loc count) (λ e. tt)
          (λ e.
            Ends-if (no_geometry d.volume) (ok (d, none)) _ (VolumeRead loc count)
              (λ f. refused d loc count k (λ a c i. false≢true (sym geometry ∙ f)))
              (λ f.
                Ends-if (outside_volume d.volume loc count) (ok (d, none)) _ (VolumeRead loc count)
                  (λ o.
                    refused d loc count k
                      (λ a c i. false≢true (sym (not_outside loc count a c i) ∙ sym range ∙ o)))
                  (λ o.
                    Ends_mono (read_loop read_blocks count d loc count) (ReadsAs loc count)
                      (VolumeRead loc count)
                      (λ r q. record {
                        kept = q.kept;
                        bytes = q.bytes;
                        served = λ a c i. q.served a i;
                      })
                      (read_loop-ReadsAs count d loc count (omega arith) w
                        (inside_volume loc count (sym range ∙ o)) k))))
