-- ===== src/Qoi/Image.antt =====
-- qoi_decode() on a file that is written as the format says.
use limine_eucleia.Prelude.{
  ℕ, ◌+◌, ◌*◌, ◌/◌, ◌%◌, ◌^◌, ◌≤◌, ◌<◌, ◌≡◌, ◌⊎◌, ◌∙◌, ap, Bool, false, Option, none, some, List,
  [], ◌∷◌, ◌++◌, arith, ltb, if◌then◌else◌, length, length-append, replicate, take, take-append,
  take-all, ok, ◌>>=◌,
}
use limine_eucleia.Word.{checked_mul}
use limine_eucleia.Memmap.Alloc.Range.{Pmm}
use limine_eucleia.Memmap.Alloc.High.{ext_mem_alloc}
use limine_eucleia.Qoi.Decode.{
  no_colour, Image, body_of, decode_file, header_size, padding_size, max_pixels, be32, bad_size,
  bad_channels, alloc_total, deliver, decode_into, decode_sized, qoi_decode,
}
use limine_eucleia.Qoi.Stream.{Chunk, ValidChunks, chunk_bytes, span, chunk_words}
use limine_eucleia.Qoi.Chunks.{decode_loop-chunks, Agrees-start}

-- The bytes of a file: the magic, the dimensions, the channels, a tag, the chunks and a padding.
abbrev pub file_of : (w h channels tag : ℕ) → List Chunk → (padding : List ℕ) → List ℕ
file_of w h channels tag cs padding =
    113
    ∷ 111
    ∷ 105
    ∷ 102
    ∷ (w / 2 ^ 24)
    ∷ (w / 2 ^ 16 % 256)
    ∷ (w / 2 ^ 8 % 256)
    ∷ (w % 256)
    ∷ (h / 2 ^ 24)
    ∷ (h / 2 ^ 16 % 256)
    ∷ (h / 2 ^ 8 % 256)
    ∷ (h % 256)
    ∷ channels
    ∷ tag
    ∷ (chunk_bytes cs ++ padding)

abbrev pub Dimension : ℕ → Type 0
Dimension n = (0 < n) × (n ≤ 65536)

take-body : (body padding : List ℕ) (n : ℕ) → n ≡ length body → take n (body ++ padding) ≡ body
take-body body padding n e =
    take-append body padding n (omega (arith, e)) ∙ take-all body n (omega (arith, e))

module _ (p : Pmm) (w h : ℕ) (cs : List Chunk) (valid : ValidChunks cs) (wide : Dimension w)
    (high : Dimension h) (few : w * h ≤ 400000000) (whole : span cs ≡ w * h) where
  abbrev image : ℕ × Pmm → Pmm × Option Image
  image r =
      (r.1, some (record { out = r.0 + 16; width = w; height = h; words = chunk_words cs [] }))

  decode_into-chunks :
      decode_into p (chunk_bytes cs) w h (w * h) (some (w * h * 4 + 16))
      ≡ (ext_mem_alloc p (w * h * 4 + 16) >>= λ r. ok (image r))
  decode_into-chunks =
      ap
        (λ (o : Option (List ℕ)).
          ext_mem_alloc p (w * h * 4 + 16) >>= λ r. deliver r.1 r.0 (w * h * 4 + 16) w h o)
        (rw whole at (decode_loop-chunks cs [] (replicate 64 no_colour) valid Agrees-start))

  alloc_total-few : alloc_total (w * h) ≡ some (w * h * 4 + 16)
  alloc_total-few = ground (arith, few)

  decode_sized-chunks :
      decode_sized p (chunk_bytes cs) w h (checked_mul w h)
      ≡ (ext_mem_alloc p (w * h * 4 + 16) >>= λ r. ok (image r))
  decode_sized-chunks =
      let fits : checked_mul w h ≡ some (w * h) = ground (arith, few) in
      let small : ltb max_pixels (w * h) ≡ false = ground (arith, few) in
      ap (decode_sized p (chunk_bytes cs) w h) fits
      ∙ rw small
          (ap (decode_into p (chunk_bytes cs) w h (w * h)) alloc_total-few ∙ decode_into-chunks)

  decode_file-chunks :
      (channels : ℕ)
      → (channels ≡ 3) ⊎ (channels ≡ 4)
      → decode_file p (chunk_bytes cs) w h channels
        ≡ (ext_mem_alloc p (w * h * 4 + 16) >>= λ r. ok (image r))
  decode_file-chunks channels c =
      let good : bad_size w h ≡ false = ground (arith, wide.0, wide.1, high.0, high.1) in
      let known : bad_channels channels ≡ false = ground (arith, c) in
      rw (good, known) decode_sized-chunks

  -- From the bytes of a header, of valid chunks that stand for as many pixels as the header
  -- says, and of a padding, with dimensions from 1 to 65536, at most 400000000 pixels and three
  -- or four channels, qoi_decode() comes to what the allocation of the buffer comes to, and if
  -- that returns, to an image with the dimensions and the words of the colours that the chunks
  -- stand for.
  pub qoi_decode-file_of :
      (channels tag : ℕ) (padding : List ℕ)
      → (channels ≡ 3) ⊎ (channels ≡ 4)
      → length padding ≡ 8
      → qoi_decode p (file_of w h channels tag cs padding) ≡ (
          ext_mem_alloc p (w * h * 4 + 16) >>= λ r.
          ok (
            r.1,
            some (record { out = r.0 + 16; width = w; height = h; words = chunk_words cs [] }),
          ))
  unfolding qoi_decode
  qoi_decode-file_of channels tag padding c e =
      let file = file_of w h channels tag cs padding in
      let w_read : be32 file 4 ≡ w = omega (arith, wide.1) in
      let h_read : be32 file 8 ≡ h = omega (arith, high.1) in
      let n : length (chunk_bytes cs ++ padding) ≡ length (chunk_bytes cs) + 8 =
        length-append (chunk_bytes cs) padding ∙ omega (arith, e) in
      let long : ltb (length file) (header_size + padding_size) ≡ false = ground (arith, n) in
      let body : body_of file ≡ chunk_bytes cs =
        take-body (chunk_bytes cs) padding _ (omega (arith, n)) in
      ap
        (λ (b : Bool).
          if b
          then ok (p, none)
          else decode_file p (body_of file) (be32 file 4) (be32 file 8) channels)
        long
      ∙ ap (λ (b : List ℕ). decode_file p b (be32 file 4) (be32 file 8) channels) body
      ∙ ap (λ (x : ℕ). decode_file p (chunk_bytes cs) x (be32 file 8) channels) w_read
      ∙ ap (λ (x : ℕ). decode_file p (chunk_bytes cs) w x channels) h_read
      ∙ decode_file-chunks channels c
