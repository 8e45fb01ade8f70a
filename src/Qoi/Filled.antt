-- ===== src/Qoi/Filled.antt =====
-- The words that the loop of qoi_decode() writes, for every sequence of bytes.
use limine_eucleia.Prelude.{
  ℕ, zero, suc, ◌+◌, ◌/◌, ◌%◌, ◌^◌, ◌<◌, ◌≡◌, ap, refl, inl, inr, Bool, true, false, Option, none,
  some, List, [], ◌∷◌, arith, ltb, ◌==◌, if◌then◌else◌, length, Bool-cases, All, All-set,
  All-get_or,
}
use limine_eucleia.Qoi.Decode.{
  Pixel, no_colour, hash, xrgb, Decoder, remember, op_luma, op_rgb, op_rgba, masked, read_op, turn,
  prepend, write, decode_loop,
}

abbrev pub IsByte : ℕ → Type 0
IsByte x = x < 256

abbrev pub IsColour : Pixel → Type 0
IsColour x = IsByte x.r × (IsByte x.g × (IsByte x.b × IsByte x.a))

pub record Coloured (d : Decoder) : Type 0 where
  pub colour : IsColour d.pixel
  pub table : All IsColour d.index
  pub bytes : All IsByte d.rest

abbrev Keeps : Option Decoder → Type 0
Keeps none = Unit
Keeps (some d) = Coloured d

abbrev pub IsWord : ℕ → Type 0
IsWord w = w < 2 ^ 24

Keeps-if : (b : Bool) (x y : Option Decoder) → Keeps x → Keeps y → Keeps (if b then x else y)
Keeps-if true x y h k = h
Keeps-if false x y h k = k

module _ (d : Decoder) (g : Coloured d) where
  remember-Keeps :
      (run : ℕ) (x : Pixel) (rest : List ℕ)
      → IsColour x
      → All IsByte rest
      → Keeps (remember d run x rest)
  remember-Keeps run x rest c b = record {
    colour = c;
    table = All-set IsColour d.index (hash x) x g.table c;
    bytes = b;
  }

  wrapped : (a b : ℕ) → IsByte ((a + b) % 256)
  wrapped a b = omega arith

  op_luma-Keeps : (op : ℕ) (rest : List ℕ) → All IsByte rest → Keeps (op_luma d op rest)
  op_luma-Keeps op [] b = tt
  op_luma-Keeps op (b2 ∷ rest) b =
      remember-Keeps d.run _ rest
        (
          wrapped (d.pixel.r + op % 64 + b2 / 16 % 16) 216,
          (
            wrapped (d.pixel.g + op % 64) 224,
            (wrapped (d.pixel.b + op % 64 + b2 % 16) 216, g.colour.1.1.1),
          ),
        )
        b.1

  op_rgb-Keeps : (rest : List ℕ) → All IsByte rest → Keeps (op_rgb d rest)
  op_rgb-Keeps [] b = tt
  op_rgb-Keeps (x ∷ []) b = tt
  op_rgb-Keeps (x ∷ y ∷ []) b = tt
  op_rgb-Keeps (x ∷ y ∷ z ∷ rest) b =
      remember-Keeps d.run _ rest (b.0, (b.1.0, (b.1.1.0, g.colour.1.1.1))) b.1.1.1

  op_rgba-Keeps : (rest : List ℕ) → All IsByte rest → Keeps (op_rgba d rest)
  op_rgba-Keeps [] b = tt
  op_rgba-Keeps (x ∷ []) b = tt
  op_rgba-Keeps (x ∷ y ∷ []) b = tt
  op_rgba-Keeps (x ∷ y ∷ z ∷ []) b = tt
  op_rgba-Keeps (x ∷ y ∷ z ∷ a ∷ rest) b =
      remember-Keeps d.run _ rest (b.0, (b.1.0, (b.1.1.0, b.1.1.1.0))) b.1.1.1.1

  masked-Keeps : (mask op : ℕ) (rest : List ℕ) → All IsByte rest → Keeps (masked d mask op rest)
  masked-Keeps mask op rest b =
      let black : IsColour no_colour = (omega arith, (omega arith, (omega arith, omega arith))) in
      Keeps-if (mask == 0) _ _
        (remember-Keeps d.run _ rest (All-get_or IsColour d.index (op % 64) no_colour g.table black)
          b)
        (Keeps-if (mask == 1) _ _
          (remember-Keeps d.run _ rest
            (
              wrapped (d.pixel.r + op / 16 % 4) 254,
              (
                wrapped (d.pixel.g + op / 4 % 4) 254,
                (wrapped (d.pixel.b + op % 4) 254, g.colour.1.1.1),
              ),
            )
            b)
          (Keeps-if (mask == 2) _ _ (op_luma-Keeps op rest b)
            (remember-Keeps (op % 64) d.pixel rest g.colour b)))

  read_op-Keeps : (rest : List ℕ) → All IsByte rest → Keeps (read_op d rest)
  read_op-Keeps [] b = tt
  read_op-Keeps (op ∷ rest) b =
      Keeps-if (op == 0xfe) _ _ (op_rgb-Keeps rest b.1) (
        Keeps-if (op == 0xff) _ _ (op_rgba-Keeps rest b.1) (masked-Keeps (op / 64 % 4) op rest b.1))

  turn-Keeps : Keeps (turn d)
  turn-Keeps = elim (Bool-cases (ltb 0 d.run)) [
    | inl c ↦ rw c (record { colour = g.colour; table = g.table; bytes = g.bytes })
    | inr c ↦ rw c (read_op-Keeps d.rest g.bytes)
  ]

-- As many words as pixels, each of 24 bits.
abbrev pub Filled : (pixels : ℕ) → Option (List ℕ) → Type 0
Filled pixels none = Unit
Filled pixels (some ws) = (length ws ≡ pixels) × All IsWord ws

xrgb-IsWord : (x : Pixel) → IsColour x → IsWord (xrgb x)
xrgb-IsWord x c = omega (arith, c.0, c.1.0, c.1.1.0)

prepend-Filled :
    (pixels x : ℕ) (o : Option (List ℕ))
    → IsWord x
    → Filled pixels o
    → Filled (suc pixels) (prepend x o)
prepend-Filled pixels x none w h = tt
prepend-Filled pixels x (some ws) w h = (ap suc h.0, (w, h.1))

write-Filled :
    (pixels : ℕ) (others : Decoder → Option (List ℕ)) (o : Option Decoder)
    → ((d : Decoder) → Coloured d → Filled pixels (others d))
    → Keeps o
    → Filled (suc pixels) (write others o)
write-Filled pixels others none h k = tt
write-Filled pixels others (some d) h k =
    prepend-Filled pixels (xrgb d.pixel) (others d) (xrgb-IsWord d.pixel k.colour) (h d k)

pub decode_loop-Filled :
    (pixels : ℕ) (d : Decoder) → Coloured d → Filled pixels (decode_loop pixels d)
unfolding decode_loop
decode_loop-Filled zero d g = (refl, tt)
decode_loop-Filled (suc pixels) d g =
    write-Filled pixels (decode_loop pixels) (turn d) (decode_loop-Filled pixels) (turn-Keeps d g)
