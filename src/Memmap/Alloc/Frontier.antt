-- ===== src/Memmap/Alloc/Frontier.antt =====
-- What mmap_get_info() says of the memory map.
use limine_eucleia.Prelude.{
  ℕ, zero, suc, ◌+◌, ◌*◌, ◌≤◌, ◌<◌, ◌≡◌, true, false, List, [], ◌∷◌, ltb, if◌then◌else◌, length, ok,
  arith, sum_by, sum_by_mono, Returns, Returns-bind, Returns-if, Bool-cases, refl, ltb→lt, ◌∙◌,
  subst, inl, inr,
}
use limine_eucleia.Memmap.Entry.{MemmapEntry, usable, hits, hit}
use limine_eucleia.Memmap.Alloc.Info.{
  Frontier, Meminfo, one_mib, extend_entry, extend, extend_loop, mmap_get_info,
}

-- The frontiers that the entry may still move.
abbrev ahead : (lower upper : ℕ) → MemmapEntry → ℕ
ahead lower upper e =
    (if ltb lower (e.base + e.length) then 1 else 0)
    + (if ltb upper (e.base + e.length) then 1 else 0)

-- One step, read as numbers.
record Extended (e : MemmapEntry) (f g : Frontier) : Type 0 where
  grows : f.lower ≤ g.lower
  grows_upper : f.upper ≤ g.upper
  fewer :
      (if g.progress then (if f.progress then 0 else 1) else 0) + ahead g.lower g.upper e
      ≤ ahead f.lower f.upper e
  keeps : f.progress ≡ true → g.progress ≡ true
  lower_in : (a : ℕ) → f.lower ≤ a → a < g.lower → 0 < hit a usable e
  upper_in : (a : ℕ) → f.upper ≤ a → a < g.upper → 0 < hit a usable e
  still :
      g.progress ≡ false
      → (g.lower ≡ f.lower)
        × (g.upper ≡ f.upper)
        × (hit f.lower usable e ≡ 0)
        × (hit f.upper usable e ≡ 0)

extend_entry-Extended : (e : MemmapEntry) (f : Frontier) → Extended e f (extend_entry e f)
unfolding extend_entry
extend_entry-Extended e f = record {
  grows = ground arith;
  grows_upper = ground arith;
  fewer = ground arith;
  keeps = ground arith;
  lower_in = λ a l h. ground arith;
  upper_in = λ a l h. ground arith;
  still = λ q. (ground arith, ground arith, ground arith, ground arith);
}

record Swept (m : List MemmapEntry) (f g : Frontier) : Type 0 where
  grows : f.lower ≤ g.lower
  grows_upper : f.upper ≤ g.upper
  fewer :
      (if g.progress then (if f.progress then 0 else 1) else 0) + sum_by (ahead g.lower g.upper) m
      ≤ sum_by (ahead f.lower f.upper) m
  keeps : f.progress ≡ true → g.progress ≡ true
  lower_in : (a : ℕ) → f.lower ≤ a → a < g.lower → 0 < hits m a usable
  upper_in : (a : ℕ) → f.upper ≤ a → a < g.upper → 0 < hits m a usable
  still :
      g.progress ≡ false
      → (g.lower ≡ f.lower)
        × (g.upper ≡ f.upper)
        × (hits m f.lower usable ≡ 0)
        × (hits m f.upper usable ≡ 0)

Swept-cons :
    (e : MemmapEntry) (m : List MemmapEntry) (f g h : Frontier)
    → Extended e f g
    → Swept m g h
    → Swept (e ∷ m) f h
Swept-cons e m f g h x s = record {
  grows = omega (arith, x.grows, s.grows);
  grows_upper = omega (arith, x.grows_upper, s.grows_upper);
  fewer = ground (arith, x.fewer, s.fewer, s.keeps, still_ahead, kept_ahead);
  keeps = λ q. s.keeps (x.keeps q);
  lower_in = λ a l u. elim (Bool-cases (ltb a g.lower)) [
    | inl c ↦ omega (arith, x.lower_in a l (ltb→lt a g.lower c))
    | inr c ↦ omega (arith, s.lower_in a (ground arith) u)
  ];
  upper_in = λ a l u. elim (Bool-cases (ltb a g.upper)) [
    | inl c ↦ omega (arith, x.upper_in a l (ltb→lt a g.upper c))
    | inr c ↦ omega (arith, s.upper_in a (ground arith) u)
  ];
  still = λ q.
      let t = s.still q in
      let u = x.still (ground (arith, s.keeps)) in
      (t.0 ∙ u.0, t.1 ∙ u.1, omega (arith, u.2, rw u.0 at t.2), omega (arith, u.3, rw u.1 at t.3));
}
  where
    still_ahead : ahead h.lower h.upper e ≤ ahead g.lower g.upper e
    still_ahead = ground (arith, s.grows, s.grows_upper)

    kept_ahead : sum_by (ahead g.lower g.upper) m ≤ sum_by (ahead f.lower f.upper) m
    kept_ahead =
        sum_by_mono (ahead g.lower g.upper) (ahead f.lower f.upper) m
          (λ d. ground (arith, x.grows, x.grows_upper))

extend-Swept : (m : List MemmapEntry) (f : Frontier) → Swept m f (extend m f)
unfolding extend
extend-Swept [] f = record {
  grows = omega arith;
  grows_upper = omega arith;
  fewer = ground arith;
  keeps = λ q. q;
  lower_in = λ a l h. absurd (omega arith);
  upper_in = λ a l h. absurd (omega arith);
  still = λ q. (refl, refl, refl, refl);
}
extend-Swept (e ∷ m) f =
    Swept-cons e m f (extend_entry e f) (extend m (extend_entry e f)) (extend_entry-Extended e f)
      (extend-Swept m (extend_entry e f))

-- The frontiers at the end of the loop: all memory up to them is usable, and none at them.
record Reached (m : List MemmapEntry) (f : Frontier) : Type 0 where
  lower_full : (a : ℕ) → a < f.lower → 0 < hits m a usable
  lower_end : hits m f.lower usable ≡ 0
  upper_full : (a : ℕ) → one_mib ≤ a → a < f.upper → 0 < hits m a usable
  upper_end : hits m f.upper usable ≡ 0
  upper_le : one_mib ≤ f.upper

module _ (m : List MemmapEntry) where
  extend_loop-Reached :
      (n lower upper : ℕ)
      → sum_by (ahead lower upper) m < n
      → one_mib ≤ upper
      → ((a : ℕ) → a < lower → 0 < hits m a usable)
      → ((a : ℕ) → one_mib ≤ a → a < upper → 0 < hits m a usable)
      → Returns (extend_loop n m lower upper) (Reached m)
  unfolding extend_loop
  extend_loop-Reached zero lower upper h le low up = absurd (omega arith)
  extend_loop-Reached (suc n) lower upper h le low up =
      let s = extend-Swept m (record { lower = lower; upper = upper; progress = false }) in
      go (extend m (record { lower = lower; upper = upper; progress = false })) s
        (λ p. extend_loop-Reached n _ _ p)
    where
      go :
          (f : Frontier)
          → Swept m (record { lower = lower; upper = upper; progress = false }) f
          → (sum_by (ahead f.lower f.upper) m < n
              → one_mib ≤ f.upper
              → ((a : ℕ) → a < f.lower → 0 < hits m a usable)
              → ((a : ℕ) → one_mib ≤ a → a < f.upper → 0 < hits m a usable)
              → Returns (extend_loop n m f.lower f.upper) (Reached m))
          → Returns (if f.progress then extend_loop n m f.lower f.upper else ok f) (Reached m)
      go f s again =
          Returns-if f.progress (extend_loop n m f.lower f.upper) (ok f) (Reached m)
            (λ q. again (ground (arith, s.fewer, q)) (omega (arith, s.grows_upper)) full full_upper)
            (λ q. record {
              lower_full = full;
              lower_end = rw ((s.still q).0) ((s.still q).2);
              upper_full = full_upper;
              upper_end = rw ((s.still q).1) ((s.still q).3);
              upper_le = omega (arith, s.grows_upper);
            })
        where
          full : (a : ℕ) → a < f.lower → 0 < hits m a usable
          full a g = elim (Bool-cases (ltb a lower)) [
            | inl c ↦ low a (ltb→lt a lower c)
            | inr c ↦ s.lower_in a (ground arith) g
          ]

          full_upper : (a : ℕ) → one_mib ≤ a → a < f.upper → 0 < hits m a usable
          full_upper a o g = elim (Bool-cases (ltb a upper)) [
            | inl c ↦ up a o (ltb→lt a upper c)
            | inr c ↦ s.upper_in a (ground arith) g
          ]

  ahead-le :
      (lower upper : ℕ) → (l : List MemmapEntry) → sum_by (ahead lower upper) l ≤ 2 * length l
  ahead-le lower upper [] = omega arith
  ahead-le lower upper (e ∷ l) = ground (arith, ahead-le lower upper l)

  -- The memory that mmap_get_info() reports.
  pub record Contiguous (i : Meminfo) : Type 0 where
    pub lower_full : (a : ℕ) → a < i.lowermem → 0 < hits m a usable
    pub lower_end : i.lowermem < one_mib → hits m i.lowermem usable ≡ 0
    pub lower_le : i.lowermem ≤ one_mib
    pub upper_full : (a : ℕ) → one_mib ≤ a → a < one_mib + i.uppermem → 0 < hits m a usable
    pub upper_end : hits m (one_mib + i.uppermem) usable ≡ 0

  -- mmap_get_info() returns on every map: every address below lowermem is usable, and that is 1
  -- MiB or the first address that is not; every address from 1 MiB on below 1 MiB + uppermem is
  -- usable, and the address 1 MiB + uppermem is not.
  pub mmap_get_info-Contiguous : Returns (mmap_get_info m) Contiguous
  unfolding mmap_get_info
  mmap_get_info-Contiguous =
      Returns-bind (extend_loop (2 * length m + 1) m 0 one_mib) _ (Reached m) Contiguous
        (extend_loop-Reached (2 * length m + 1) 0 one_mib (omega (arith, ahead-le 0 one_mib m))
          (omega arith) (λ a h. absurd (omega arith)) (λ a o h. absurd (omega arith)))
        (λ f r. record {
          lower_full = λ a h. r.lower_full a (ground arith);
          lower_end = λ h. capped f r h;
          lower_le = ground arith;
          upper_full = λ a o h. r.upper_full a o (omega (arith, r.upper_le));
          upper_end = subst (λ x. hits m x usable ≡ 0) (omega (arith, r.upper_le)) r.upper_end;
        })
    where
      capped :
          (f : Frontier)
          → Reached m f
          → (if ltb one_mib f.lower then one_mib else f.lower) < one_mib
          → hits m (if ltb one_mib f.lower then one_mib else f.lower) usable ≡ 0
      capped f r h = subst (λ x. hits m x usable ≡ 0) (ground arith) r.lower_end
