-- ===== src/Qoi/Safe.antt =====
-- What qoi_decode() makes sure of for every sequence of bytes.
use limine_eucleia.Prelude.{
  ℕ, ◌+◌, ◌*◌, ◌%◌, ◌≤◌, ◌<◌, ◌≡◌, subst, sym, refl, inl, inr, true, false, not, Option, none, some,
  List, arith, ltb, ◌==◌, length, drop, get_or, Bool-cases, All, All-replicate, All-take, All-drop,
  Ends, Ends-bind, Ends-if, sum_by,
}
use limine_eucleia.Word.{word, checked_mul}
use limine_eucleia.Memmap.Entry.{usable, bootloader_reclaimable, hits, overflows}
use limine_eucleia.Memmap.Claim.Total.{inside}
use limine_eucleia.Memmap.Alloc.Range.{Pmm, check_type, pmm_free}
use limine_eucleia.Memmap.Alloc.Freed.{Fine, pmm_free-Fine, ext_mem_alloc-Served}
use limine_eucleia.Memmap.Alloc.High.{ext_mem_alloc}
use limine_eucleia.Memmap.Alloc.Served.{Served}
use limine_eucleia.Qoi.Decode.{
  no_colour, decode_loop, starting, Image, header_size, padding_size, bad_size, bad_channels,
  body_of, alloc_total, deliver, decode_into, decode_sized, is_magic, be32, qoi_decode,
}
use limine_eucleia.Qoi.Filled.{IsByte, IsColour, IsWord, Filled, decode_loop-Filled}

-- The image lies in a buffer that was usable memory and is reclaimable afterwards; it has the
-- dimensions that the header says, and fills them with words of 24 bits.
pub record Drawn (p p' : Pmm) (src : List ℕ) (i : Image) : Type 0 where
  pub width_read : i.width ≡ be32 src 4
  pub height_read : i.height ≡ be32 src 8
  pub size : (0 < i.width) × (i.width ≤ 65536) × (0 < i.height) × (i.height ≤ 65536)
  pub filled : length i.words ≡ i.width * i.height
  pub colours : All IsWord i.words
  pub aligned : i.out % 4096 ≡ 16
  pub below : i.out + 4 * (i.width * i.height) ≤ 0x1_0000_0000
  pub was_usable :
      (a : ℕ)
      → inside i.out (i.out + 4 * (i.width * i.height)) a ≡ true
      → 0 < hits p.memmap a usable
  pub given :
      (a : ℕ)
      → inside i.out (i.out + 4 * (i.width * i.height)) a ≡ true
      → check_type p'.memmap a ≡ bootloader_reclaimable

module _ (p : Pmm) (src : List ℕ) where
  abbrev pub SafeDecode : Pmm × Option Image → Type 0
  SafeDecode (p', none) = sum_by overflows p'.memmap ≡ 0
  SafeDecode (p', some i) = (sum_by overflows p'.memmap ≡ 0) × Drawn p p' src i

  module _ (fine : sum_by overflows p.memmap ≡ 0) (bytes : All IsByte src) (w h : ℕ)
      (w_read : w ≡ be32 src 4) (h_read : h ≡ be32 src 8)
      (size : (0 < w) × (w ≤ 65536) × (0 < h) × (h ≤ 65536)) where
    deliver-SafeDecode :
        (r : ℕ × Pmm)
        → Served p (w * h * 4 + 16) bootloader_reclaimable 4096 0x1_0000_0000 r
        → (o : Option (List ℕ)) → Filled (w * h) o
        → Ends (deliver r.1 r.0 (w * h * 4 + 16) w h o) SafeDecode
    deliver-SafeDecode r s none f =
        Ends-bind (pmm_free r.1 r.0 (w * h * 4 + 16)) _ (Fine r.1 s.ends) SafeDecode
          (pmm_free-Fine r.1 s.ends r.0 (w * h * 4 + 16)) (λ p' e. e)
    deliver-SafeDecode r s (some words) f = (
      s.ends,
      record {
        width_read = w_read;
        height_read = h_read;
        size = size;
        filled = f.0;
        colours = f.1;
        aligned = omega (arith, s.aligned);
        below = omega (arith, s.below, s.enough);
        was_usable = λ a i. s.was_usable a (ground (arith, s.enough, i));
        given = λ a i. s.given a (ground (arith, s.enough, i));
      },
    )

    alloc-Served :
        Ends
          (ext_mem_alloc p (w * h * 4 + 16))
          (Served p (w * h * 4 + 16) bootloader_reclaimable 4096 0x1_0000_0000)
    alloc-Served =
        let some_count : (w * h * 4 + 16 == 0) ≡ false = ground arith in
        rw some_count at (ext_mem_alloc-Served p fine (w * h * 4 + 16))

    sized-SafeDecode :
        (body : List ℕ)
        → All IsByte body
        → Ends (decode_into p body w h (w * h) (some (w * h * 4 + 16))) SafeDecode
    sized-SafeDecode body b =
        let black : IsColour no_colour = (omega arith, (omega arith, (omega arith, omega arith))) in
        Ends-bind (ext_mem_alloc p (w * h * 4 + 16)) _
          (Served p (w * h * 4 + 16) bootloader_reclaimable 4096 0x1_0000_0000) SafeDecode
          alloc-Served
          (λ r s. deliver-SafeDecode r s (decode_loop (w * h) (starting body)) (
            decode_loop-Filled (w * h) (starting body) (record {
              colour = (omega arith, (omega arith, (omega arith, omega arith)));
              table = All-replicate IsColour 64 no_colour black;
              bytes = b;
            })))

    decode_sized-SafeDecode :
        (body : List ℕ)
        → All IsByte body
        → Ends (decode_sized p body w h (checked_mul w h)) SafeDecode
    decode_sized-SafeDecode body b = elim (Bool-cases (ltb 400000000 (w * h))) [
      | inl big ↦ elim (Bool-cases (ltb (w * h) word)) [
        | inl c ↦ rw (c, big) fine
        | inr c ↦ rw c fine
      ]
      | inr few ↦
          let c : ltb (w * h) word ≡ true = ground (arith, few) in
          let total : alloc_total (w * h) ≡ some (w * h * 4 + 16) = ground (arith, few) in
          rw (c, few)
            (subst (λ (o : Option ℕ). Ends (decode_into p body w h (w * h) o) SafeDecode)
              (sym total) (sized-SafeDecode body b))
    ]

  -- On a state whose map has no overflowing entry, qoi_decode() comes to an end on all bytes: it
  -- panics, or returns NULL or an image, with a map in which no entry overflows; an image has
  -- the dimensions of the header, each from 1 to 65536, as many words as pixels, each of 24
  -- bits, and lies below 4 GiB, 16 bytes into a page, in memory that was usable and afterwards
  -- is reclaimable.
  pub qoi_decode-SafeDecode :
      sum_by overflows p.memmap ≡ 0 → All IsByte src → Ends (qoi_decode p src) SafeDecode
  unfolding qoi_decode
  qoi_decode-SafeDecode fine bytes =
      let w = be32 src 4 in
      let h = be32 src 8 in
      Ends-if (ltb (length src) (header_size + padding_size)) _ _ SafeDecode (λ e. fine)
        (λ e.
          Ends-if (not (is_magic src)) _ _ SafeDecode (λ f. fine)
            (λ f.
              Ends-if (bad_size w h) _ _ SafeDecode (λ c. fine)
                (λ c.
                  Ends-if (bad_channels (get_or src 12 0)) _ _ SafeDecode (λ d. fine)
                    (λ d.
                      decode_sized-SafeDecode fine bytes w h refl refl (good_size w h c)
                        (body_of src)
                        (All-take IsByte _ (drop header_size src)
                          (All-drop IsByte header_size src bytes))))))
    where
      good_size : (w h : ℕ) → bad_size w h ≡ false → (0 < w) × (w ≤ 65536) × (0 < h) × (h ≤ 65536)
      good_size w h c = ground (arith, c)
