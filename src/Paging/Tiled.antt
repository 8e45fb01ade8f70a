-- ===== src/Paging/Tiled.antt =====
-- The pages of map_pages() of common/mm/vmm.c cover the range one behind the other.
use limine_eucleia.Prelude.{
  ℕ, zero, suc, ◌+◌, ◌-◌, ◌*◌, ◌%◌, ◌/◌, ◌≤◌, ◌<◌, ◌≡◌, ◌≢◌, ◌⊎◌, refl, inl, inr, false, not, ◌||◌,
  List, [], ◌∷◌, arith, ◌==◌, Bool-cases, Returns, Returns-bind, suc-nonzero,
}
use limine_eucleia.Word.{add64}
use limine_eucleia.Paging.Pages.{Page, large_fits, page_size_for, map_loop, map_pages}

-- A page of one of the three sizes, at addresses that are multiples of it; a large one is not at the
-- physical address 0.
pub record Fitting (p : Page) : Type 0 where
  pub sizes : ((p.size ≡ 0x1000) ⊎ ((p.size ≡ 0x20_0000) ⊎ (p.size ≡ 0x4000_0000)))
  pub virt_aligned : p.virt % p.size ≡ 0
  pub phys_aligned : p.phys % p.size ≡ 0
  pub large_phys : p.size ≢ 0x1000 → p.phys ≢ 0

page_size_for-Fitting :
    (virt phys flags left : ℕ)
    → virt % 0x1000 ≡ 0
    → phys % 0x1000 ≡ 0
    → 0 < left
    → left % 0x1000 ≡ 0
    → Fitting
        (record { virt = virt; phys = phys; flags = flags; size = page_size_for virt phys left })
      × (page_size_for virt phys left ≤ left)
page_size_for-Fitting virt phys flags left v p l m =
    elim (Bool-cases (large_fits 0x4000_0000 virt phys left)) [
      | inl c ↦ rw c (
        record {
          sizes = inr (inr refl);
          virt_aligned = ground (arith, c);
          phys_aligned = ground (arith, c);
          large_phys = λ n z. ground (arith, c, z);
        },
        ground (arith, c),
      )
      | inr c ↦ rw c (elim (Bool-cases (large_fits 0x20_0000 virt phys left)) [
        | inl d ↦ rw d (
          record {
            sizes = inr (inl refl);
            virt_aligned = ground (arith, d);
            phys_aligned = ground (arith, d);
            large_phys = λ n z. ground (arith, d, z);
          },
          ground (arith, d),
        )
        | inr d ↦ rw d (
          record {
            sizes = inl refl;
            virt_aligned = v;
            phys_aligned = p;
            large_phys = λ n z. absurd (n refl);
          },
          omega (arith, l, m),
        )
      ])
    ]

module _ (virt phys flags : ℕ) where
  -- The pages from an offset on cover exactly what is left, each at the offset of the range where the
  -- one before ends.
  abbrev pub Tiles : (i left : ℕ) → List Page → Type 0
  Tiles i left [] = left ≡ 0
  Tiles i left (p ∷ ps) =
      ((p.virt ≡ add64 virt i) × (p.phys ≡ add64 phys i) × (p.flags ≡ flags))
      × (Fitting p × ((p.size ≤ left) × Tiles (i + p.size) (left - p.size) ps))

  module _ (v : virt % 0x1000 ≡ 0) (q : phys % 0x1000 ≡ 0) where
    map_loop-Tiles :
        (fuel i left : ℕ)
        → i % 0x1000 ≡ 0
        → left % 0x1000 ≡ 0
        → left ≤ fuel * 0x1000
        → Returns (map_loop virt phys flags fuel i left) (Tiles i left)
    unfolding map_loop
    map_loop-Tiles zero i zero a m h = refl
    map_loop-Tiles zero i (suc left) a m h = absurd (omega (arith, h))
    map_loop-Tiles (suc fuel) i zero a m h = refl
    map_loop-Tiles (suc fuel) i (suc left) a m h =
        let size = page_size_for (add64 virt i) (add64 phys i) (suc left) in
        let fit =
          page_size_for-Fitting (add64 virt i) (add64 phys i) flags (suc left) (omega (arith, v, a))
            (omega (arith, q, a)) (omega arith) m in
        let step =
          whole_pages
            (record { virt = add64 virt i; phys = add64 phys i; flags = flags; size = size })
            fit.0 in
        rw (suc-nonzero left) (
          Returns-bind (map_loop virt phys flags fuel (i + size) (suc left - size)) _
            (Tiles (i + size) (suc left - size)) (Tiles i (suc left))
            (map_loop-Tiles fuel (i + size) (suc left - size) (omega (arith, a, step.0))
              (omega (arith, m, fit.1, step.0)) (omega (arith, h, step.1)))
            (λ pages t. ((refl, refl, refl), (fit.0, (fit.1, t)))))
      where
        whole_pages : (p : Page) → Fitting p → (p.size % 0x1000 ≡ 0) × (0x1000 ≤ p.size)
        whole_pages p f = elim f.sizes [
          | inl e ↦ omega (arith, e)
          | inr (inl e) ↦ omega (arith, e)
          | inr (inr e) ↦ omega (arith, e)
        ]

    -- For a virtual and a physical address and a count that are multiples of 4096, map_pages()
    -- returns, without a panic, after calls of map_page() that cover the range exactly, each
    -- beginning where the one before ends: each with the flags, of one of the three page sizes,
    -- at virtual and physical addresses (modulo 2^64) that are multiples of the size, and no
    -- page larger than 4096 bytes at the physical address 0.
    pub map_pages-Tiles :
        (count : ℕ) → count % 0x1000 ≡ 0 → Returns (map_pages virt phys flags count) (Tiles 0 count)
    unfolding map_pages
    map_pages-Tiles count m =
        let fine : (not (virt % 0x1000 == 0)
              || not (phys % 0x1000 == 0)
              || not (count % 0x1000 == 0))
            ≡ false =
          ground (arith, v, q, m) in
        rw fine (map_loop-Tiles (count / 0x1000) 0 count refl m (omega (arith, m)))
