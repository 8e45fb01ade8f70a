-- ===== src/Ui/Blend.antt =====
-- blend() of common/ui/canvas.c.
use limine_eucleia.Prelude.{ℕ, ◌+◌, ◌-◌, ◌*◌, ◌/◌, ◌%◌, ◌≤◌, ◌<◌, ◌≡◌, arith, sym, ap, ◌∙◌}
use native.Mathlib.Nat.{mul-add}

-- The channel of a colour at a shift of 0, 8 or 16 bits, whose power is `unit`.
abbrev pub channel : (unit c : ℕ) → ℕ
channel unit c = c / unit % 256

unfoldable pub mix : (d s alpha : ℕ) → ℕ
mix d s alpha = (d * (255 - alpha) + s * alpha + 127) / 255

-- `value |= channel << shift`, whose bits do not meet for an alpha of at most 255.
unfoldable pub blend : (dst src alpha : ℕ) → ℕ
blend dst src alpha =
    mix (channel 1 dst) (channel 1 src) alpha
    + mix (channel 0x100 dst) (channel 0x100 src) alpha * 0x100
    + mix (channel 0x1_0000 dst) (channel 0x1_0000 src) alpha * 0x1_0000

mul_mono : (p q b : ℕ) → p ≤ q → p * b ≤ q * b
mul_mono p q b h = grind arith

-- A mean of the two, rounded to the nearest.
mix-le : (d s alpha m : ℕ) → alpha ≤ 255 → d ≤ m → s ≤ m → mix d s alpha ≤ m
unfolding mix
mix-le d s alpha m h p q =
    let a = mul_mono d m (255 - alpha) p in
    let b = mul_mono s m alpha q in
    let parts = mul-add m (255 - alpha) alpha in
    let all : 255 - alpha + alpha ≡ 255 = omega arith in
    let whole : m * (255 - alpha) + m * alpha ≡ m * 255 = sym parts ∙ ap (λ k. m * k) all in
    omega (arith, a, b, whole)

le-mix : (d s alpha m : ℕ) → alpha ≤ 255 → m ≤ d → m ≤ s → m ≤ mix d s alpha
unfolding mix
le-mix d s alpha m h p q =
    let a = mul_mono m d (255 - alpha) p in
    let b = mul_mono m s alpha q in
    let parts = mul-add m (255 - alpha) alpha in
    let all : 255 - alpha + alpha ≡ 255 = omega arith in
    let whole : m * (255 - alpha) + m * alpha ≡ m * 255 = sym parts ∙ ap (λ k. m * k) all in
    omega (arith, a, b, whole)

-- A channel of the result lies between those of the two colours.
pub record Between (unit dst src c : ℕ) : Type 0 where
  pub over : (m : ℕ) → m ≤ channel unit dst → m ≤ channel unit src → m ≤ channel unit c
  pub under : (m : ℕ) → channel unit dst ≤ m → channel unit src ≤ m → channel unit c ≤ m

mix-byte : (d s alpha : ℕ) → alpha ≤ 255 → d < 256 → s < 256 → mix d s alpha < 256
mix-byte d s alpha h p q = omega (arith, mix-le d s alpha 255 h (omega arith) (omega arith))

mixed-Between :
    (unit dst src alpha c : ℕ)
    → alpha ≤ 255
    → channel unit c ≡ mix (channel unit dst) (channel unit src) alpha
    → Between unit dst src c
mixed-Between unit dst src alpha c h q = record {
  over = λ m l k. omega (arith, q, le-mix (channel unit dst) (channel unit src) alpha m h l k);
  under = λ m l k. omega (arith, q, mix-le (channel unit dst) (channel unit src) alpha m h l k);
}

packed :
    (b g r : ℕ)
    → b < 256
    → g < 256
    → r < 256
    → (channel 1 (b + g * 0x100 + r * 0x1_0000) ≡ b)
      × (channel 0x100 (b + g * 0x100 + r * 0x1_0000) ≡ g)
      × (channel 0x1_0000 (b + g * 0x100 + r * 0x1_0000) ≡ r)
      × (b + g * 0x100 + r * 0x1_0000 < 0x100_0000)
packed b g r x y z = (omega arith, omega arith, omega arith, omega arith)

-- A blended pixel.
abbrev pub Blends : (dst src c : ℕ) → Type 0
Blends dst src c =
    Between 1 dst src c × Between 0x100 dst src c × Between 0x1_0000 dst src c × (c < 0x100_0000)

-- For an alpha of at most 255, blend() gives a 24-bit colour each of whose three channels lies
-- between the channels of the two colours: a bound of both is a bound of it.
pub blend-Blends : (dst src alpha : ℕ) → alpha ≤ 255 → Blends dst src (blend dst src alpha)
unfolding blend
blend-Blends dst src alpha h =
    let p =
      packed (mix (channel 1 dst) (channel 1 src) alpha)
        (mix (channel 0x100 dst) (channel 0x100 src) alpha)
        (mix (channel 0x1_0000 dst) (channel 0x1_0000 src) alpha)
        (mix-byte (channel 1 dst) (channel 1 src) alpha h (omega arith) (omega arith))
        (mix-byte (channel 0x100 dst) (channel 0x100 src) alpha h (omega arith) (omega arith))
        (mix-byte (channel 0x1_0000 dst) (channel 0x1_0000 src) alpha h (omega arith)
          (omega arith)) in
    (
      mixed-Between 1 dst src alpha (blend dst src alpha) h p.0,
      mixed-Between 0x100 dst src alpha (blend dst src alpha) h p.1,
      mixed-Between 0x1_0000 dst src alpha (blend dst src alpha) h p.2,
      p.3,
    )
