-- ===== src/Qoi/Stream.antt =====
-- The chunks that a QOI file consists of, their bytes, and the pixels that they stand for, without
-- the table of common/lib/qoi.c: a chunk refers to the pixels before it.
use limine_eucleia.Prelude.{
  ℕ, suc, ◌+◌, ◌*◌, ◌%◌, ◌<◌, List, [], ◌∷◌, ◌++◌, ◌==◌, if◌then◌else◌, replicate,
}
use limine_eucleia.Qoi.Decode.{Pixel, no_colour, hash, xrgb}

pub data Chunk : Type 0 where
  from_index : ℕ → Chunk
  diff : (dr dg db : ℕ) → Chunk
  luma : (dg dr db : ℕ) → Chunk
  repeats : ℕ → Chunk
  rgb : (r g b : ℕ) → Chunk
  rgba : (r g b a : ℕ) → Chunk

-- The fields fit; 62 and 63 repetitions would be read as `rgb` and `rgba`.
abbrev pub ValidChunk : Chunk → Type 0
ValidChunk (from_index i) = i < 64
ValidChunk (diff dr dg db) = (dr < 4) × (dg < 4) × (db < 4)
ValidChunk (luma dg dr db) = (dg < 64) × (dr < 16) × (db < 16)
ValidChunk (repeats n) = n < 62
ValidChunk (rgb r g b) = (r < 256) × (g < 256) × (b < 256)
ValidChunk (rgba r g b a) = (r < 256) × (g < 256) × (b < 256) × (a < 256)

-- The bytes of a chunk, before others.
abbrev pub bytes_before : Chunk → List ℕ → List ℕ
bytes_before (from_index i) rest = i ∷ rest
bytes_before (diff dr dg db) rest = (64 + (dr * 16 + (dg * 4 + db))) ∷ rest
bytes_before (luma dg dr db) rest = (128 + dg) ∷ (dr * 16 + db) ∷ rest
bytes_before (repeats n) rest = (192 + n) ∷ rest
bytes_before (rgb r g b) rest = 0xfe ∷ r ∷ g ∷ b ∷ rest
bytes_before (rgba r g b a) rest = 0xff ∷ r ∷ g ∷ b ∷ a ∷ rest

-- The colour before the next chunk; at the start it is opaque black.
abbrev pub last_of : List Pixel → Pixel
last_of [] = record { r = 0; g = 0; b = 0; a = 0xff }
last_of (x ∷ past) = x

-- The latest colour with a hash.
abbrev pub latest : ℕ → List Pixel → Pixel
latest i [] = no_colour
latest i (x ∷ past) = if hash x == i then x else latest i past

-- The colour of a chunk behind earlier colours, the latest first; channels count modulo 256.
abbrev pub colour : Chunk → List Pixel → Pixel
colour (from_index i) past = latest i past
colour (diff dr dg db) past = record {
  r = ((last_of past).r + dr + 254) % 256;
  g = ((last_of past).g + dg + 254) % 256;
  b = ((last_of past).b + db + 254) % 256;
  a = (last_of past).a;
}
colour (luma dg dr db) past = record {
  r = ((last_of past).r + dg + dr + 216) % 256;
  g = ((last_of past).g + dg + 224) % 256;
  b = ((last_of past).b + dg + db + 216) % 256;
  a = (last_of past).a;
}
colour (repeats n) past = last_of past
colour (rgb r g b) past = record { r = r; g = g; b = b; a = (last_of past).a }
colour (rgba r g b a) past = record { r = r; g = g; b = b; a = a }

-- The pixels of a chunk behind its first one.
abbrev pub more_pixels : Chunk → ℕ
more_pixels (repeats n) = n
more_pixels (from_index i) = 0
more_pixels (diff dr dg db) = 0
more_pixels (luma dg dr db) = 0
more_pixels (rgb r g b) = 0
more_pixels (rgba r g b a) = 0

abbrev pub ValidChunks : List Chunk → Type 0
ValidChunks [] = Unit
ValidChunks (c ∷ cs) = ValidChunk c × ValidChunks cs

abbrev pub chunk_bytes : List Chunk → List ℕ
chunk_bytes [] = []
chunk_bytes (c ∷ cs) = bytes_before c (chunk_bytes cs)

-- The number of pixels.
abbrev pub span : List Chunk → ℕ
span [] = 0
span (c ∷ cs) = suc (more_pixels c + span cs)

abbrev pub chunk_words : List Chunk → (past : List Pixel) → List ℕ
chunk_words [] past = []
chunk_words (c ∷ cs) past =
    replicate (suc (more_pixels c)) (xrgb (colour c past)) ++ chunk_words cs (colour c past ∷ past)
