-- ===== src/Memmap/Sanitise/Separated.antt =====
-- The first pass of pmm_sanitise_entries() as a whole: it ends, no usable entry meets another one
-- after it, and what it keeps.
use limine_eucleia.Prelude.{
  ℕ, zero, suc, ◌+◌, ◌-◌, ◌*◌, ◌≤◌, ◌<◌, ◌≡◌, ◌≢◌, ◌⊎◌, refl, ap, ◌∙◌, inl, inr, List, Bool, true,
  false, none, some, arith, get_elem?, set, take, sum_by, sum_by-set, sum_by-take-suc,
  sum_by-take-suc-set, take-all, get_elem?-none, get_elem?-lt, ◌==◌, Bool-cases, Option-cases, Ends,
  Result, ok, panic, out_of_fuel, Ends-bind, Ends_mono, sum_by_mono, le-sum_by, ==_iff,
}
use limine_eucleia.Word.{word}
use limine_eucleia.Memmap.Entry.{
  MemmapEntry, usable, remove, cover, hit, hits, covers, overflows, hit-le-cover,
}
use limine_eucleia.Memmap.Removal.{sum_by-remove}
use limine_eucleia.Memmap.Sanitise.Overlap.{size, too_wide, scan_fuel}
use limine_eucleia.Memmap.Sanitise.Scan.{Kept, Kept-refl, Holds}
use limine_eucleia.Memmap.Sanitise.Scanned.{Gone, Scanned, scan_loop-Scanned, length-le-size}
use limine_eucleia.Memmap.Sanitise.Separate.{
  Round, restart, next, settle_entry, settle, separate_entry, separate_loop, separate,
}
use limine_eucleia.Memmap.Sanitise.Align.{Shrinks, settle_entry-some, settle_entry-none}

-- What the pass keeps of a map: without the alignment no address is lost.
pub record Refined (align_entries : Bool) (m m' : List MemmapEntry) : Type 0 where
  pub others : (a t : ℕ) → t ≢ usable → hits m' a t ≡ hits m a t
  pub usable_le : (a : ℕ) → hits m' a usable ≤ hits m a usable
  pub covers_le : (a : ℕ) → covers m' a ≤ covers m a
  pub held : align_entries ≡ false → (a : ℕ) → 0 < covers m a → 0 < covers m' a
  pub size_le : sum_by size m' ≤ sum_by size m
  pub wide_le : sum_by too_wide m' ≤ sum_by too_wide m
  pub overflows_le : sum_by overflows m' ≤ sum_by overflows m

-- An address of a usable entry before `i` is in no other entry.
abbrev pub Lone : ℕ → List MemmapEntry → Type 0
Lone i m = (a : ℕ) → 1 ≤ hits (take i m) a usable → covers m a ≤ 1

mul_step : (p q b : ℕ) → p < q → p * b + b ≤ q * b
mul_step p q b h = grind arith

mul_mono : (p q b : ℕ) → p ≤ q → p * b ≤ q * b
mul_mono p q b h = grind arith

module _ (align_entries : Bool) where
  Kept→Refined : (m m' : List MemmapEntry) → Kept m m' → Refined align_entries m m'
  Kept→Refined m m' k = record {
    others = k.others;
    usable_le = k.usable_le;
    covers_le = k.covers_le;
    held = λ _. k.held;
    size_le = k.size_le;
    wide_le = k.wide_le;
    overflows_le = k.overflows_le;
  }

  Refined-trans :
      (m m' m'' : List MemmapEntry)
      → Refined align_entries m m'
      → Refined align_entries m' m''
      → Refined align_entries m m''
  Refined-trans m m' m'' k l = record {
    others = λ a t h. l.others a t h ∙ k.others a t h;
    usable_le = λ a. omega (arith, k.usable_le a, l.usable_le a);
    covers_le = λ a. omega (arith, k.covers_le a, l.covers_le a);
    held = λ e a h. l.held e a (k.held e a h);
    size_le = omega (arith, k.size_le, l.size_le);
    wide_le = omega (arith, k.wide_le, l.wide_le);
    overflows_le = omega (arith, k.overflows_le, l.overflows_le);
  }

  abbrev pub RoundNext : ℕ → List MemmapEntry → Round → Type 0
  RoundNext i m (restart m') = Refined align_entries m m' × (sum_by size m' < sum_by size m)
  RoundNext i m (next m') = Refined align_entries m m' × (Lone i m → Lone (suc i) m')

  module _ (m : List MemmapEntry) (i : ℕ) (e : MemmapEntry) (at : get_elem? m i ≡ some e)
      (e_usable : e.type ≡ usable) where
    removed :
        ((align_entries ≡ false) → (a : ℕ) → cover a e ≡ 0) → RoundNext i m (restart (remove m i))
    removed gone = (
      record {
        others = λ a t h. ground (arith, sum_by-remove (hit a t) m i at);
        usable_le = λ a. omega (arith, sum_by-remove (hit a usable) m i at);
        covers_le = λ a. omega (arith, sum_by-remove (cover a) m i at);
        held = λ f a h. omega (arith, sum_by-remove (cover a) m i at, gone f a);
        size_le = omega (arith, sum_by-remove size m i at);
        wide_le = omega (arith, sum_by-remove too_wide m i at);
        overflows_le = omega (arith, sum_by-remove overflows m i at);
      },
      omega (arith, sum_by-remove size m i at),
    )

    shrunk : (e' : MemmapEntry) → Shrinks align_entries e e' → Refined align_entries m (set m i e')
    shrunk e' t = record {
      others = λ a u h. ground (arith, sum_by-set (hit a u) m i e' at, t.type_same);
      usable_le =
          λ a. ground (arith, sum_by-set (hit a usable) m i e' at, t.type_same, t.cover_le a);
      covers_le = λ a. omega (arith, sum_by-set (cover a) m i e' at, t.cover_le a);
      held = λ f a h. omega (arith, sum_by-set (cover a) m i e' at, ap (cover a) (t.same f));
      size_le = omega (arith, sum_by-set size m i e' at, t.length_le);
      wide_le = ground (arith, sum_by-set too_wide m i e' at, t.length_le);
      overflows_le = ground (arith, sum_by-set overflows m i e' at, t.top_le);
    }

  -- The round goes on from `m'`, which the loop over `j` has left of `m`.
  module _ (m m' : List MemmapEntry) (i : ℕ) (h : Holds i m m')
      (narrow : sum_by too_wide m ≡ 0) where
    from_scan : Refined align_entries m m'
    from_scan = Kept→Refined m m' h.kept

    Lone-Holds : Lone i m → Lone i m'
    Lone-Holds lone a p =
        omega (arith, h.kept.covers_le a, lone a (rw (ap (λ x. hits x a usable) h.prefix) at p))

    carry : (r : Round) → RoundNext i m' r → RoundNext i m r
    carry (restart m'') p =
        (Refined-trans m m' m'' from_scan p.0, omega (arith, p.1, h.kept.size_le))
    carry (next m'') p = (Refined-trans m m' m'' from_scan p.0, λ lone. p.1 (Lone-Holds lone))

    module _
        (alone : (a : ℕ) (e : MemmapEntry)
          → get_elem? m' i ≡ some e
          → cover a e ≡ 1
          → covers m' a ≤ 1) where
      Lone-shrunk :
          (e' : MemmapEntry)
          → Shrinks align_entries h.entry e'
          → Lone i m'
          → Lone (suc i) (set m' i e')
      Lone-shrunk e' t lone a p = ground (
        arith,
        sum_by-take-suc-set (hit a usable) m' i e' h.at,
        sum_by-set (cover a) m' i e' h.at,
        lone a,
        hit-le-cover a usable e',
        t.cover_le a,
        alone a h.entry h.at,
      )

      length_small : h.entry.length < word
      length_small = ground (arith, le-sum_by too_wide m' i h.at, h.kept.wide_le)

      settle-Next : RoundNext i m' (settle align_entries i m' false)
      unfolding settle
      settle-Next =
          rw (h.at, settle)
            (elim (Option-cases (settle_entry align_entries h.entry)) [
              | inl gone ↦ rw gone (
                  removed m' i h.entry h.at h.is_usable
                    (λ f a. settle_entry-none h.entry (rw f at gone) a))
              | inr (e', q) ↦
                  let t = settle_entry-some align_entries h.entry e' length_small q in
                  rw q (shrunk m' i h.entry h.at h.is_usable e' t, Lone-shrunk e' t)
            ])

    deleted-Next : Gone i m' → RoundNext i m' (settle align_entries i m' true)
    unfolding settle
    deleted-Next gone = removed m' i h.entry h.at h.is_usable (λ f a. gone a h.entry h.at)

  module _ (max_entries i : ℕ) (m : List MemmapEntry) (narrow : sum_by too_wide m ≡ 0) where
    Scanned-Next :
        (r : List MemmapEntry × Bool)
        → Scanned i m r
        → RoundNext i m (settle align_entries i r.0 r.1)
    Scanned-Next (m', true) s =
        carry m m' i s.0 narrow _ (deleted-Next m m' i s.0 narrow (s.2 refl))
    Scanned-Next (m', false) s = carry m m' i s.0 narrow _ (settle-Next m m' i s.0 narrow s.1)

    separate_entry-Next :
        (e : MemmapEntry)
        → get_elem? m i ≡ some e
        → Ends (separate_entry max_entries align_entries i m e) (RoundNext i m)
    unfolding separate_entry
    separate_entry-Next e at = elim (Bool-cases (e.type == usable)) [
      | inl u ↦
          rw (u, separate_entry)
            (Ends-bind _ _ (Scanned i m) (RoundNext i m)
              (scan_loop-Scanned max_entries i (scan_fuel m) 0 m e at ((==_iff e.type usable).0 u)
                (omega arith) (λ a v at' c. ground arith))
              Scanned-Next)
      | inr u ↦
          rw (u, separate_entry)
            (
              Kept→Refined m m (Kept-refl m),
              λ lone a p. lone a (ground (arith, sum_by-take-suc (hit a usable) m i at)),
            )
    ]

  -- After the pass no usable entry meets another entry.
  abbrev pub Separated : List MemmapEntry → List MemmapEntry → Type 0
  Separated m m' = Refined align_entries m m' × ((a : ℕ) → 1 ≤ hits m' a usable → covers m' a ≡ 1)

  Round-cases :
      (r : Result Round)
      → ((m : List MemmapEntry) × (r ≡ ok (restart m)))
        ⊎ (((m : List MemmapEntry) × (r ≡ ok (next m))) ⊎ ((r ≡ panic) ⊎ (r ≡ out_of_fuel)))
  Round-cases (ok (restart m)) = inl (m, refl)
  Round-cases (ok (next m)) = inr (inl (m, refl))
  Round-cases panic = inr (inr (inl refl))
  Round-cases out_of_fuel = inr (inr (inr refl))

  separate_loop-Separated :
      (max_entries bound fuel i : ℕ) (m : List MemmapEntry)
      → sum_by too_wide m ≡ 0
      → sum_by size m < bound
      → sum_by size m * bound + (bound - i) < fuel
      → Lone i m
      → Ends (separate_loop max_entries align_entries fuel i m) (Separated m)
  unfolding separate_loop
  separate_loop-Separated max_entries bound zero i m narrow b enough lone = absurd (omega arith)
  separate_loop-Separated max_entries bound (suc fuel) i m narrow b enough lone =
      elim (Option-cases (get_elem? m i)) [
        | inl h ↦ rw (h, separate_loop) (Kept→Refined m m (Kept-refl m), ended h)
        | inr (e, h) ↦
            let round = separate_entry-Next max_entries i m narrow e h in
            elim (Round-cases (separate_entry max_entries align_entries i m e)) [
              | inl (m', q) ↦
                  let (refined, smaller) = restarted m' (rw q at round) in
                  rw (h, q, separate_loop)
                    (Ends_mono _ (Separated m') (Separated m) (follow m' refined) (
                      separate_loop-Separated max_entries bound fuel 0 m'
                        (omega (arith, refined.wide_le)) (omega arith)
                        (omega (
                          arith,
                          mul_step (sum_by size m') (sum_by size m) bound smaller,
                          length-le-size m,
                          get_elem?-lt m i h,
                        ))
                        (λ a p. absurd (omega arith))))
              | inr (inl (m', q)) ↦
                  let (refined, lone') = went_on m' (rw q at round) in
                  rw (h, q, separate_loop)
                    (Ends_mono _ (Separated m') (Separated m) (follow m' refined) (
                      separate_loop-Separated max_entries bound fuel (suc i) m'
                        (omega (arith, refined.wide_le)) (omega (arith, refined.size_le))
                        (omega (
                          arith,
                          mul_mono (sum_by size m') (sum_by size m) bound refined.size_le,
                          length-le-size m,
                          get_elem?-lt m i h,
                        ))
                        (lone' lone)))
              | inr (inr (inl q)) ↦ rw (h, q, separate_loop) tt
              | inr (inr (inr q)) ↦ absurd (rw q at round)
            ]
      ]
    where
      ended : get_elem? m i ≡ none → (a : ℕ) → 1 ≤ hits m a usable → covers m a ≡ 1
      ended h a p =
          let all : take i m ≡ m = take-all m i (get_elem?-none m i h) in
          omega (
            arith,
            lone a (rw all p),
            sum_by_mono (hit a usable) (cover a) m (hit-le-cover a usable),
          )

      follow :
          (m' : List MemmapEntry)
          → Refined align_entries m m'
          → (m'' : List MemmapEntry) → Separated m' m''
          → Separated m m''
      follow m' r m'' s = (Refined-trans m m' m'' r s.0, s.1)

      restarted :
          (m' : List MemmapEntry)
          → RoundNext i m (restart m')
          → Refined align_entries m m' × (sum_by size m' < sum_by size m)
      restarted m' p = p

      went_on :
          (m' : List MemmapEntry)
          → RoundNext i m (next m')
          → Refined align_entries m m' × (Lone i m → Lone (suc i) m')
      went_on m' p = p

  -- The first pass of pmm_sanitise_entries() comes to an end on every map of entries with 64-bit
  -- lengths, by a panic or with a map in which an address of a usable entry is in no other
  -- entry; memory of other types is the same, no address is in more entries or usable entries
  -- than before, without the alignment no address drops out, and the sizes and the overflowing
  -- entries do not grow.
  pub separate-Separated :
      (max_entries : ℕ) (m : List MemmapEntry)
      → sum_by too_wide m ≡ 0
      → Ends (separate max_entries align_entries m) (Separated m)
  unfolding separate
  separate-Separated max_entries m narrow =
      separate_loop-Separated max_entries (scan_fuel m) (scan_fuel m * scan_fuel m + 1) 0 m narrow
        (omega arith) (omega arith) (λ a p. absurd (omega arith))
