-- ===== src/Disk/Cached.antt =====
-- What cache_block() of common/lib/part.s2.c keeps true of the cache.
use limine_eucleia.Prelude.{
  ℕ, ◌+◌, ◌-◌, ◌*◌, ◌/◌, ◌%◌, ◌≤◌, ◌<◌, ◌≡◌, ◌≢◌, ap, refl, true, false, Option, none, some, arith,
  inl, inr, ltb, ltb→lt, leb, leb→le, mul_mono_left, mul_mono_right, ◌==◌, Bool-cases,
}
use native.Mathlib.Nat.{div-add-mod', mod-lt, div-le_self}
use limine_eucleia.Word.{word, sub64, div_roundup}
use limine_eucleia.Disk.Volume.{Volume, unknown, block_sector, clamped, transfer}

enough_left : (off b s v m : ℕ) → off + b * s ≤ v * s → v ≡ b + m → off ≤ m * s
enough_left off b s v m h e = let h' : off + b * s ≤ (b + m) * s = rw e at h in omega arith

less_of_scaled : (a b s : ℕ) → a * s < b * s → a < b
less_of_scaled a b s h = elim (Bool-cases (ltb a b)) [
  | inl c ↦ ltb→lt a b c
  | inr c ↦ absurd (omega (arith, h, mul_mono_left b a s (ground (arith, c))))
]

abbrev pub IsSome {ℓ} : {A : Type ℓ} → Option A → Type 0
IsSome none = ⊥
IsSome (some x) = Unit

-- A count of sectors of the larger size, rounded up.
abbrev pub Roundup : (count per : ℕ) → Option ℕ → Type 0
Roundup count per none = Unit
Roundup count per (some n) = (count ≤ n * per) × (n ≤ count)

pub div_roundup-Roundup :
    (count per : ℕ) → 0 < per → per < word → Roundup count per (div_roundup count per)
unfolding div_roundup
div_roundup-Roundup count per h w = elim (Bool-cases (ltb (count + sub64 per 1) word)) [
  | inr c ↦ rw c tt
  | inl c ↦ rw c (
      let less : sub64 per 1 ≡ per - 1 = ground (arith, h, w) in
      let parts = div-add-mod' (count + sub64 per 1) per in
      let part = mod-lt (count + sub64 per 1) h in
      let low : count ≤ (count + sub64 per 1) / per * per = omega (arith, parts, part, less) in
      (low, roundup_le count per ((count + sub64 per 1) / per) h (omega (arith, parts, less))))
]
  where
    roundup_le : (count per n : ℕ) → 0 < per → n * per ≤ count + per - 1 → n ≤ count
    roundup_le count per n h e = elim (Bool-cases (leb n count)) [
      | inl c ↦ leb→le n count c
      | inr c ↦
          let more : (count + 1) * per ≤ n * per =
            mul_mono_left (count + 1) n per (ground (arith, c)) in
          let once : count * 1 ≤ count * per = mul_mono_right count 1 per (omega (arith, h)) in
          absurd (omega (arith, more, once, e, h))
    ]

module _ (v : Volume) where
  -- The size of a block in bytes, and where the volume begins.
  abbrev pub block_bytes : ℕ
  block_bytes = v.fastest_xfer_size * v.sector_size

  -- So many bytes of a block are all of it that the volume has.
  abbrev pub Covers : (block n : ℕ) → Type 0
  Covers block n =
      (off : ℕ)
      → off ≤ block_bytes
      → (v.sect_count ≢ unknown → block * block_bytes + off ≤ v.sect_count * 512)
      → off ≤ n

  -- Sectors that are multiples of 512 bytes, a block size of 64 bits, and an end of 64 bits.
  pub record Geometry : Type 0 where
    pub sectors : v.sector_size ≡ v.sector_size / 512 * 512
    pub some_sectors : 0 < v.sector_size / 512
    pub fits : block_bytes < word
    pub some_xfer : 0 < v.fastest_xfer_size
    pub room : v.sect_count ≢ unknown → v.first_sect + v.sect_count < word

  abbrev pub first_sector : ℕ
  first_sector = v.first_sect / (v.sector_size / 512)

  abbrev pub Placed : (block : ℕ) → Option ℕ → Type 0
  Placed block none = Unit
  Placed block (some rs) =
      (rs * v.sector_size ≡ v.first_sect * 512 + block * block_bytes)
      × (rs ≡ first_sector + block * v.fastest_xfer_size)

  abbrev pub Sized : (block : ℕ) → Option ℕ → Type 0
  Sized block none = Unit
  Sized block (some count) = Covers block (count * v.sector_size)

  module _ (g : Geometry) where
    small_sectors : v.sector_size / 512 < word
    small_sectors =
        let once : 1 * v.sector_size ≤ block_bytes =
          mul_mono_left 1 v.fastest_xfer_size v.sector_size (omega (arith, g.some_xfer)) in
        omega (arith, once, g.fits)

    pub block_sector-Placed : (block : ℕ) → Placed block (block_sector v block)
    block_sector-Placed block = elim (Bool-cases (v.first_sect % (v.sector_size / 512) == 0)) [
      | inr c ↦ rw c tt
      | inl c ↦ rw c (elim (Bool-cases (ltb (block * v.fastest_xfer_size) word)) [
        | inr d ↦ rw d tt
        | inl d ↦ rw d (elim (Bool-cases (ltb (first_sector + block * v.fastest_xfer_size) word)) [
          | inr e ↦ rw e tt
          | inl e ↦ rw e (
              let whole : first_sector * (v.sector_size / 512) ≡ v.first_sect =
                ground (arith, c, div-add-mod' v.first_sect (v.sector_size / 512)) in
              let scaled : first_sector * v.sector_size
                  ≡ first_sector * (v.sector_size / 512 * 512) =
                ap (λ (t : ℕ). first_sector * t) g.sectors in
              (omega (arith, whole, scaled), refl))
        ])
      ])
    ]

    clamped-Sized :
        (block rs : ℕ) (o : Option ℕ)
        → v.sect_count ≢ unknown
        → rs ≡ first_sector + block * v.fastest_xfer_size
        → Roundup v.sect_count (v.sector_size / 512) o
        → Sized block (clamped v.fastest_xfer_size rs first_sector o)
    clamped-Sized block rs none k e r = tt
    clamped-Sized block rs (some n) k e r =
        let below : first_sector ≤ v.first_sect = div-le_self v.first_sect (v.sector_size / 512) in
        let sum : ltb (first_sector + n) word ≡ true = ground (arith, below, r.1, g.room k) in
        rw sum (elim (Bool-cases (leb (first_sector + n) rs)) [
          | inl c ↦ rw c tt
          | inr c ↦ rw c (elim (Bool-cases (ltb (first_sector + n - rs) v.fastest_xfer_size)) [
            | inr d ↦ rw d (λ off h i. h)
            | inl d ↦ rw d (λ off h i.
                let scaled : n * v.sector_size ≡ n * (v.sector_size / 512 * 512) =
                  ap (λ (t : ℕ). n * t) g.sectors in
                let most : v.sect_count * 512 ≤ n * v.sector_size = omega (arith, scaled, r.0) in
                enough_left off (block * v.fastest_xfer_size) v.sector_size n
                  (first_sector + n - rs) (omega (arith, i k, most)) (ground (arith, e, c)))
          ])
        ])

    pub transfer-Sized :
        (block rs : ℕ)
        → rs ≡ first_sector + block * v.fastest_xfer_size
        → Sized block (transfer v rs)
    transfer-Sized block rs e = elim (Bool-cases (v.sect_count == unknown)) [
      | inl c ↦ rw c (λ off h i. h)
      | inr c ↦ rw c (
          clamped-Sized block rs (div_roundup v.sect_count (v.sector_size / 512))
            (ground (arith, c)) e
            (div_roundup-Roundup v.sect_count (v.sector_size / 512) g.some_sectors small_sectors))
    ]

    -- A block that begins inside a volume of known size has a place and something to transfer.
    module _ (block : ℕ) (known : v.sect_count ≢ unknown) (sized : v.sect_count * 512 < word)
        (starts : block * block_bytes < v.sect_count * 512) where
      before_end : block * v.fastest_xfer_size < v.sect_count
      before_end =
          let scaled : block * v.fastest_xfer_size * 512
              ≤ block * v.fastest_xfer_size * v.sector_size =
            mul_mono_right (block * v.fastest_xfer_size) 512 v.sector_size
              (omega (arith, g.sectors, g.some_sectors)) in
          omega (arith, scaled, starts)

      pub block_sector-IsSome :
          v.first_sect % (v.sector_size / 512) ≡ 0 → IsSome (block_sector v block)
      block_sector-IsSome aligned =
          let even : (v.first_sect % (v.sector_size / 512) == 0) ≡ true = ground (arith, aligned) in
          let below : first_sector ≤ v.first_sect =
            div-le_self v.first_sect (v.sector_size / 512) in
          let fits : ltb (block * v.fastest_xfer_size) word ≡ true =
            ground (arith, before_end, g.room known) in
          let sum : ltb (first_sector + block * v.fastest_xfer_size) word ≡ true =
            ground (arith, before_end, g.room known, below) in
          rw even (rw fits (rw sum tt))

      div_roundup-IsSome : IsSome (div_roundup v.sect_count (v.sector_size / 512))
      unfolding div_roundup
      div_roundup-IsSome =
          let less : sub64 (v.sector_size / 512) 1 ≡ v.sector_size / 512 - 1 =
            ground (arith, g.some_sectors, small_sectors) in
          let small : v.sector_size < word = omega (
            arith,
            mul_mono_left 1 v.fastest_xfer_size v.sector_size (omega (arith, g.some_xfer)),
            g.fits,
          ) in
          let fits : ltb (v.sect_count + sub64 (v.sector_size / 512) 1) word ≡ true =
            ground (arith, less, sized, small) in
          rw fits tt

      clamped-IsSome :
          (o : Option ℕ)
          → IsSome o
          → Roundup v.sect_count (v.sector_size / 512) o
          → IsSome (
              clamped v.fastest_xfer_size
                (first_sector + block * v.fastest_xfer_size)
                (first_sector)
                o)
      clamped-IsSome none i r = absurd i
      clamped-IsSome (some n) i r =
          let below : first_sector ≤ v.first_sect =
            div-le_self v.first_sect (v.sector_size / 512) in
          let sum : ltb (first_sector + n) word ≡ true = ground (arith, below, r.1, g.room known) in
          let scaled : n * v.sector_size ≡ n * (v.sector_size / 512 * 512) =
            ap (λ (t : ℕ). n * t) g.sectors in
          let more : block * v.fastest_xfer_size < n =
            less_of_scaled (block * v.fastest_xfer_size) n v.sector_size
              (omega (arith, starts, scaled, r.0)) in
          let open_end : leb (first_sector + n) (first_sector + block * v.fastest_xfer_size)
              ≡ false =
            ground (arith, more) in
          rw sum (
            rw open_end
              (elim (Bool-cases (
                ltb (first_sector + n - (first_sector + block * v.fastest_xfer_size))
                  v.fastest_xfer_size)) [ inl c ↦ rw c tt | inr c ↦ rw c tt ]))

      pub transfer-IsSome :
          (rs : ℕ) → rs ≡ first_sector + block * v.fastest_xfer_size → IsSome (transfer v rs)
      transfer-IsSome rs e =
          let bounded : (v.sect_count == unknown) ≡ false = ground (arith, known) in
          rw e (
            rw bounded (
              clamped-IsSome (div_roundup v.sect_count (v.sector_size / 512)) div_roundup-IsSome (
                div_roundup-Roundup v.sect_count (v.sector_size / 512) g.some_sectors
                  small_sectors)))
