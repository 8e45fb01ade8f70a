-- ===== src/Qoi/Decode.antt =====
-- qoi_decode() of common/lib/qoi.c, with qoi_be32(), qoi_alloc_xrgb() and qoi_free().
use limine_eucleia.Prelude.{
  ℕ, zero, suc, ◌+◌, ◌-◌, ◌*◌, ◌/◌, ◌%◌, ◌^◌, Bool, not, ◌&&◌, ◌||◌, Option, none, some, List, [],
  ◌∷◌, ltb, ◌==◌, if◌then◌else◌, length, get_or, set, take, drop, replicate, Result, ok, ◌>>=◌,
}
use limine_eucleia.Word.{checked_add, checked_mul}
use limine_eucleia.Memmap.Alloc.Range.{Pmm, pmm_free}
use limine_eucleia.Memmap.Alloc.High.{ext_mem_alloc}

-- The variables `r`, `g`, `b` and `a`; also a word of `index`, whose four bytes they are.
pub record Pixel : Type 0 where
  pub r : ℕ
  pub g : ℕ
  pub b : ℕ
  pub a : ℕ

abbrev pub no_colour : Pixel
no_colour = record { r = 0; g = 0; b = 0; a = 0 }

-- QOI_HASH.
abbrev pub hash : Pixel → ℕ
hash x = (x.r * 3 + x.g * 5 + x.b * 7 + x.a * 11) % 64

-- The word of the output; the three fields do not meet.
abbrev pub xrgb : Pixel → ℕ
xrgb x = x.r * 2 ^ 16 + x.g * 2 ^ 8 + x.b

-- The loop's variables; `rest` is the bytes from `pos` to `end`.
pub record Decoder : Type 0 where
  pub run : ℕ
  pub pixel : Pixel
  pub index : List Pixel
  pub rest : List ℕ

module _ (d : Decoder) where
  -- The word of the index at the colour's hash is set.
  abbrev pub remember : (run : ℕ) → Pixel → List ℕ → Option Decoder
  remember run x rest =
      some (record { run = run; pixel = x; index = set d.index (hash x) x; rest = rest })

  abbrev pub op_rgb : List ℕ → Option Decoder
  op_rgb [] = none
  op_rgb (r ∷ []) = none
  op_rgb (r ∷ g ∷ []) = none
  op_rgb (r ∷ g ∷ b ∷ rest) = remember d.run (record { r = r; g = g; b = b; a = d.pixel.a }) rest

  abbrev pub op_rgba : List ℕ → Option Decoder
  op_rgba [] = none
  op_rgba (r ∷ []) = none
  op_rgba (r ∷ g ∷ []) = none
  op_rgba (r ∷ g ∷ b ∷ []) = none
  op_rgba (r ∷ g ∷ b ∷ a ∷ rest) = remember d.run (record { r = r; g = g; b = b; a = a }) rest

  abbrev pub op_index : (op : ℕ) → List ℕ → Option Decoder
  op_index op rest = remember d.run (get_or d.index (op % 64) no_colour) rest

  -- Bytes wrap; 254 stands for -2.
  abbrev pub op_diff : (op : ℕ) → List ℕ → Option Decoder
  op_diff op rest =
      remember d.run
        (record {
          r = (d.pixel.r + op / 16 % 4 + 254) % 256;
          g = (d.pixel.g + op / 4 % 4 + 254) % 256;
          b = (d.pixel.b + op % 4 + 254) % 256;
          a = d.pixel.a;
        })
        rest

  -- 224 stands for -32, and 216 for -32 - 8.
  abbrev pub op_luma : (op : ℕ) → List ℕ → Option Decoder
  op_luma op [] = none
  op_luma op (b2 ∷ rest) =
      remember d.run
        (record {
          r = (d.pixel.r + op % 64 + b2 / 16 % 16 + 216) % 256;
          g = (d.pixel.g + op % 64 + 224) % 256;
          b = (d.pixel.b + op % 64 + b2 % 16 + 216) % 256;
          a = d.pixel.a;
        })
        rest

  abbrev pub op_run : (op : ℕ) → List ℕ → Option Decoder
  op_run op rest = remember (op % 64) d.pixel rest

  -- The two bits of `op & QOI_OP_MASK`.
  abbrev pub masked : (mask op : ℕ) → List ℕ → Option Decoder
  masked mask op rest =
      if mask == 0
      then op_index op rest
      else if mask == 1
      then op_diff op rest
      else if mask == 2
      then op_luma op rest
      else op_run op rest

  abbrev pub read_op : List ℕ → Option Decoder
  read_op [] = none
  read_op (op ∷ rest) =
      if op == 0xfe
      then op_rgb rest
      else if op == 0xff
      then op_rgba rest
      else masked (op / 64 % 4) op rest

  -- What comes before a pixel is written.
  abbrev pub turn : Option Decoder
  turn = if ltb 0 d.run then some (record d { run = d.run - 1 }) else read_op d.rest

abbrev pub prepend : ℕ → Option (List ℕ) → Option (List ℕ)
prepend x none = none
prepend x (some out) = some (x ∷ out)

-- The pixel of a turn, and then the others.
abbrev pub write : (Decoder → Option (List ℕ)) → Option Decoder → Option (List ℕ)
write others none = none
write others (some d) = prepend (xrgb d.pixel) (others d)

-- `none` is `goto fail`.
unfoldable pub decode_loop : (pixels : ℕ) → Decoder → Option (List ℕ)
decode_loop zero d = some []
decode_loop (suc pixels) d = write (decode_loop pixels) (turn d)

abbrev pub starting : List ℕ → Decoder
starting rest = record {
  run = 0;
  pixel = record { r = 0; g = 0; b = 0; a = 0xff };
  index = replicate 64 no_colour;
  rest = rest;
}

abbrev pub header_size : ℕ
header_size = 14

abbrev pub padding_size : ℕ
padding_size = 8

abbrev pub max_dim : ℕ
max_dim = 65536

abbrev pub max_pixels : ℕ
max_pixels = 400000000

-- The shifted bytes do not meet.
abbrev pub be32 : List ℕ → ℕ → ℕ
be32 p i =
    get_or p i 0 * 2 ^ 24
    + get_or p (i + 1) 0 * 2 ^ 16
    + get_or p (i + 2) 0 * 2 ^ 8
    + get_or p (i + 3) 0

-- The buffer's address, the dimensions and the words.
pub record Image : Type 0 where
  pub out : ℕ
  pub width : ℕ
  pub height : ℕ
  pub words : List ℕ

-- The size of the allocation, of which the first 16 bytes hold that size.
abbrev pub alloc_total : (pixels : ℕ) → Option ℕ
alloc_total pixels = elim (checked_mul pixels 4) [ none ↦ none | some bytes ↦ checked_add bytes 16 ]

-- Without words, qoi_free() of the buffer.
abbrev pub deliver : Pmm → (raw total w h : ℕ) → Option (List ℕ) → Result (Pmm × Option Image)
deliver p raw total w h none = pmm_free p raw total >>= λ p'. ok (p', none)
deliver p raw total w h (some words) =
    ok (p, some (record { out = raw + 16; width = w; height = h; words = words }))

abbrev pub decode_into :
    Pmm → (body : List ℕ) (w h pixels : ℕ) → Option ℕ → Result (Pmm × Option Image)
decode_into p body w h pixels none = ok (p, none)
decode_into p body w h pixels (some total) =
    ext_mem_alloc p total >>= λ r. deliver r.1 r.0 total w h (decode_loop pixels (starting body))

abbrev pub is_magic : List ℕ → Bool
is_magic p =
    get_or p 0 0 == 113 && get_or p 1 0 == 111 && get_or p 2 0 == 105 && get_or p 3 0 == 102

abbrev pub bad_size : (w h : ℕ) → Bool
bad_size w h = w == 0 || h == 0 || ltb max_dim w || ltb max_dim h

abbrev pub bad_channels : ℕ → Bool
bad_channels channels = not (channels == 3) && not (channels == 4)

abbrev pub decode_sized : Pmm → (body : List ℕ) (w h : ℕ) → Option ℕ → Result (Pmm × Option Image)
decode_sized p body w h none = ok (p, none)
decode_sized p body w h (some pixels) =
    if ltb max_pixels pixels
    then ok (p, none)
    else decode_into p body w h pixels (alloc_total pixels)

abbrev pub decode_file : Pmm → (body : List ℕ) (w h channels : ℕ) → Result (Pmm × Option Image)
decode_file p body w h channels =
    if bad_size w h
    then ok (p, none)
    else if bad_channels channels
    then ok (p, none)
    else decode_sized p body w h (checked_mul w h)

-- The bytes from the header to the padding.
abbrev pub body_of : List ℕ → List ℕ
body_of src = take (length src - padding_size - header_size) (drop header_size src)

-- A null pointer stands as no bytes.
unfoldable pub qoi_decode : Pmm → (src : List ℕ) → Result (Pmm × Option Image)
qoi_decode p src =
    if ltb (length src) (header_size + padding_size)
    then ok (p, none)
    else if not (is_magic src)
    then ok (p, none)
    else decode_file p (body_of src) (be32 src 4) (be32 src 8) (get_or src 12 0)
