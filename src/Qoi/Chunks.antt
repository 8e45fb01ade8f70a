-- ===== src/Qoi/Chunks.antt =====
-- The loop of qoi_decode() reads the chunks of a stream.
use limine_eucleia.Prelude.{
  ℕ, zero, suc, ◌+◌, ◌*◌, ◌/◌, ◌%◌, ◌<◌, ◌≡◌, ◌∙◌, ap, refl, some, List, [], ◌∷◌, ◌++◌, arith, ◌==◌,
  if◌then◌else◌, length, get_or, set, replicate, length-set, suc-minus,
}
use limine_eucleia.Qoi.Decode.{
  Pixel, no_colour, hash, xrgb, Decoder, turn, read_op, prepend, write, masked, decode_loop,
}
use limine_eucleia.Qoi.Stream.{
  Chunk, from_index, diff, luma, repeats, rgb, rgba, ValidChunk, ValidChunks, bytes_before, last_of,
  latest, colour, more_pixels, chunk_bytes, span, chunk_words,
}

-- The table holds the latest colours.
abbrev pub Agrees : List Pixel → (past : List Pixel) → Type 0
Agrees index past =
    (length index ≡ 64) × ((i : ℕ) → i < 64 → get_or index i no_colour ≡ latest i past)

abbrev pub at : (run : ℕ) → Pixel → List Pixel → List ℕ → Decoder
at run x index rest = record { run = run; pixel = x; index = index; rest = rest }

get_or-set :
    (xs : List Pixel) (i j : ℕ) (x : Pixel)
    → i < length xs
    → get_or (set xs i x) j no_colour ≡ (if i == j then x else get_or xs j no_colour)
get_or-set [] i j x h = absurd (omega arith)
get_or-set (y ∷ xs) zero zero x h = refl
get_or-set (y ∷ xs) zero (suc j) x h = ground arith
get_or-set (y ∷ xs) (suc i) zero x h = ground arith
get_or-set (y ∷ xs) (suc i) (suc j) x h = get_or-set xs i j x (omega arith) ∙ ground arith

hash-lt : (x : Pixel) → hash x < 64
hash-lt x = omega arith

Agrees-set :
    (index past : List Pixel) (x : Pixel)
    → Agrees index past
    → Agrees (set index (hash x) x) (x ∷ past)
Agrees-set index past x h = (
  length-set index (hash x) x ∙ h.0,
  λ i l.
      get_or-set index (hash x) i x (omega (arith, h.0, hash-lt x))
      ∙ ap (λ y. if hash x == i then x else y) (h.1 i l),
)

module _ (d : Decoder) (op : ℕ) (rest : List ℕ) where
  plain : op < 254 → read_op d (op ∷ rest) ≡ masked d (op / 64 % 4) op rest
  plain h = ground arith

turn-bytes_before :
    (c : Chunk) (past index : List Pixel) (rest : List ℕ)
    → ValidChunk c
    → Agrees index past
    → turn (at 0 (last_of past) index (bytes_before c rest))
      ≡ some (
          at
            (more_pixels c)
            (colour c past)
            (set index (hash (colour c past)) (colour c past))
            rest)
turn-bytes_before (from_index i) past idx rest v h =
    let d = at 0 (last_of past) idx (i ∷ rest) in
    let mask : i / 64 % 4 ≡ 0 = omega arith in
    let low : i % 64 ≡ i = omega arith in
    plain d i rest (omega arith) ∙ rw mask (rw low (rw (h.1 i v) refl))
turn-bytes_before (diff dr dg db) past idx rest v h =
    let op = 64 + (dr * 16 + (dg * 4 + db)) in
    let d = at 0 (last_of past) idx (op ∷ rest) in
    let mask : op / 64 % 4 ≡ 1 = omega arith in
    let f1 : op / 16 % 4 ≡ dr = omega arith in
    let f2 : op / 4 % 4 ≡ dg = omega arith in
    let f3 : op % 4 ≡ db = omega arith in plain d op rest (omega arith) ∙ rw (mask, f1, f2, f3) refl
turn-bytes_before (luma dg dr db) past idx rest v h =
    let op = 128 + dg in
    let d = at 0 (last_of past) idx (op ∷ (dr * 16 + db) ∷ rest) in
    let mask : op / 64 % 4 ≡ 2 = omega arith in
    let f1 : op % 64 ≡ dg = omega arith in
    let f2 : (dr * 16 + db) / 16 % 16 ≡ dr = omega arith in
    let f3 : (dr * 16 + db) % 16 ≡ db = omega arith in
    plain d op ((dr * 16 + db) ∷ rest) (omega arith) ∙ rw (mask, f1, f2, f3) refl
turn-bytes_before (repeats n) past idx rest v h =
    let op = 192 + n in
    let d = at 0 (last_of past) idx (op ∷ rest) in
    let mask : op / 64 % 4 ≡ 3 = omega arith in
    let f1 : op % 64 ≡ n = omega arith in plain d op rest (omega arith) ∙ rw (mask, f1) refl
turn-bytes_before (rgb r g b) past idx rest v h = refl
turn-bytes_before (rgba r g b a) past idx rest v h = refl

decode_loop-step :
    (m : ℕ) (d d' : Decoder) (ws : List ℕ)
    → turn d ≡ some d'
    → decode_loop m d' ≡ some ws
    → decode_loop (suc m) d ≡ some (xrgb d'.pixel ∷ ws)
unfolding decode_loop
decode_loop-step m d d' ws t e = ap (write (decode_loop m)) t ∙ ap (prepend (xrgb d'.pixel)) e

decode_loop-repeats :
    (n k m : ℕ) (x : Pixel) (index : List Pixel) (rest ws : List ℕ)
    → m ≡ n + k
    → decode_loop k (at 0 x index rest) ≡ some ws
    → decode_loop m (at n x index rest) ≡ some (replicate n (xrgb x) ++ ws)
decode_loop-repeats zero k m x index rest ws q e = let same : m ≡ k = omega arith in rw same e
decode_loop-repeats (suc n) k zero x index rest ws q e = absurd (omega arith)
decode_loop-repeats (suc n) k (suc m) x index rest ws q e =
    decode_loop-step m (at (suc n) x index rest) (at n x index rest) (replicate n (xrgb x) ++ ws)
      (ground (arith, suc-minus n)) (decode_loop-repeats n k m x index rest ws (omega arith) e)

pub decode_loop-chunks :
    (cs : List Chunk) (past index : List Pixel)
    → ValidChunks cs
    → Agrees index past
    → decode_loop (span cs) (at 0 (last_of past) index (chunk_bytes cs))
      ≡ some (chunk_words cs past)
decode_loop-chunks [] past index v h = unfold decode_loop in refl
decode_loop-chunks (c ∷ cs) past index v h =
    let y = colour c past in
    let index' = set index (hash y) y in
    decode_loop-step (more_pixels c + span cs)
      (at 0 (last_of past) index (bytes_before c (chunk_bytes cs)))
      (at (more_pixels c) y index' (chunk_bytes cs))
      (replicate (more_pixels c) (xrgb y) ++ chunk_words cs (y ∷ past))
      (turn-bytes_before c past index (chunk_bytes cs) v.0 h)
      (decode_loop-repeats (more_pixels c) (span cs) (more_pixels c + span cs) y index'
        (chunk_bytes cs) (chunk_words cs (y ∷ past)) refl
        (decode_loop-chunks cs (y ∷ past) index' v.1 (Agrees-set index past y h)))

pub Agrees-start : Agrees (replicate 64 no_colour) []
Agrees-start = (refl, get_or-replicate 64)
  where
    get_or-replicate : (n i : ℕ) → i < n → get_or (replicate n no_colour) i no_colour ≡ no_colour
    get_or-replicate zero i h = absurd (omega arith)
    get_or-replicate (suc n) zero h = refl
    get_or-replicate (suc n) (suc i) h = get_or-replicate n i (omega arith)
