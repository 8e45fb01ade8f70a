-- ===== src/Memmap/Sanitise/Sorted.antt =====
-- The third pass of pmm_sanitise_entries(): a selection sort that keeps the entries.
use limine_eucleia.Prelude.{
  ℕ, zero, suc, ◌+◌, ◌-◌, ◌≤◌, ◌<◌, ◌≡◌, refl, ap, ◌∙◌, sym, inl, inr, List, some, arith, length,
  get_elem?, set, sum_by, sum_by-set, get_elem?-lt, get_elem?-some, get_elem?-none,
  get_elem?-set_self, get_elem?-set_ne, length-set, ltb, true, false, Bool-cases, ltb→lt,
  Option-cases,
}
use native.Mathlib.Decide.{ℕ_discrete}
use limine_eucleia.Memmap.Entry.{MemmapEntry}
use limine_eucleia.Memmap.Sanitise.Sort.{min_loop, select, sort_loop, sort}

-- The entries before `p` are in order, and none that follows is smaller.
abbrev pub SortedTo : ℕ → List MemmapEntry → Type 0
SortedTo p m =
    (i j : ℕ) (e f : MemmapEntry)
    → i < p
    → i ≤ j
    → get_elem? m i ≡ some e
    → get_elem? m j ≡ some f
    → e.base ≤ f.base

abbrev pub IsSorted : List MemmapEntry → Type 0
IsSorted m =
    (i j : ℕ) (e f : MemmapEntry)
    → i ≤ j
    → get_elem? m i ≡ some e
    → get_elem? m j ≡ some f
    → e.base ≤ f.base

-- An index from `p` on whose entry is the smallest from there on.
record IsLeast (m : List MemmapEntry) (p k : ℕ) : Type 0 where
  least : MemmapEntry
  at : get_elem? m k ≡ some least
  from : p ≤ k
  below : (j : ℕ) (f : MemmapEntry) → p ≤ j → get_elem? m j ≡ some f → least.base ≤ f.base

module _ (m : List MemmapEntry) (p : ℕ) where
  min_loop-IsLeast :
      (rounds i min_index : ℕ) (u : MemmapEntry)
      → get_elem? m min_index ≡ some u
      → p ≤ min_index
      → ((j : ℕ) (f : MemmapEntry) → p ≤ j → j < i → get_elem? m j ≡ some f → u.base ≤ f.base)
      → p ≤ i
      → length m ≤ i + rounds
      → IsLeast m p (min_loop m rounds i u.base min_index)
  unfolding min_loop
  min_loop-IsLeast zero i k u at from below o all = record {
    least = u;
    at = at;
    from = from;
    below = λ j f q at'. below j f q (omega (arith, get_elem?-lt m j at')) at';
  }
  min_loop-IsLeast (suc rounds) i k u at from below o all = elim (Option-cases (get_elem? m i)) [
    | inl h ↦
        rw (h, min_loop)
          (record {
            least = u;
            at = at;
            from = from;
            below = λ j f q at'.
                below j f q (omega (arith, get_elem?-lt m j at', get_elem?-none m i h)) at';
          })
    | inr (e, h) ↦ elim (Bool-cases (ltb e.base u.base)) [
      | inl c ↦
          rw (h, c, min_loop)
            (min_loop-IsLeast rounds (suc i) i e h o (λ j f q lt at'. smaller e h c j f q lt at')
              (omega arith) (omega arith))
      | inr c ↦
          rw (h, c, min_loop)
            (min_loop-IsLeast rounds (suc i) k u at from (λ j f q lt at'. same e h c j f q lt at')
              (omega arith) (omega arith))
    ]
  ]
    where
      smaller :
          (e : MemmapEntry)
          → get_elem? m i ≡ some e
          → ltb e.base u.base ≡ true
          → (j : ℕ) (f : MemmapEntry) → p ≤ j
          → j < suc i
          → get_elem? m j ≡ some f
          → e.base ≤ f.base
      smaller e h c j f q lt at' = elim (ℕ_discrete j i) [
        | yes same_index ↦ ground (arith, ap (get_elem? m) same_index)
        | no other ↦ ground (arith, below j f q (omega arith) at')
      ]

      same :
          (e : MemmapEntry)
          → get_elem? m i ≡ some e
          → ltb e.base u.base ≡ false
          → (j : ℕ) (f : MemmapEntry) → p ≤ j
          → j < suc i
          → get_elem? m j ≡ some f
          → u.base ≤ f.base
      same e h c j f q lt at' = elim (ℕ_discrete j i) [
        | yes same_index ↦ ground (arith, ap (get_elem? m) same_index)
        | no other ↦ below j f q (omega arith) at'
      ]

-- One exchange: `m[p]` takes the smallest entry from `p` on.
module _ (m : List MemmapEntry) (p : ℕ) (e : MemmapEntry) (at_p : get_elem? m p ≡ some e) (k : ℕ)
    (least : IsLeast m p k) where
  open least use {least as u, at as at_k, from, below}

  abbrev swapped : List MemmapEntry
  swapped = set (set m k e) p u

  at_p' : get_elem? (set m k e) p ≡ some e
  at_p' = elim (ℕ_discrete k p) [
    | yes q ↦ rw (← q) (get_elem?-set_self m k e (get_elem?-lt m k at_k))
    | no q ↦ get_elem?-set_ne m k p e q ∙ at_p
  ]

  sum_by-swapped : (f : MemmapEntry → ℕ) → sum_by f swapped ≡ sum_by f m
  sum_by-swapped f = omega (arith, sum_by-set f (set m k e) p u at_p', sum_by-set f m k e at_k)

  swapped_first : get_elem? swapped p ≡ some u
  swapped_first = get_elem?-set_self (set m k e) p u (get_elem?-lt (set m k e) p at_p')

  -- Every entry afterwards was there before, on the same side of `p`.
  swapped_from :
      (j : ℕ) (f : MemmapEntry)
      → get_elem? swapped j ≡ some f
      → (j' : ℕ) × (get_elem? m j' ≡ some f) × (p ≤ j → p ≤ j') × (j < p → j' ≡ j)
  swapped_from j f h = elim (ℕ_discrete p j) [
    | yes q ↦
        (k, cc (swapped_first, ap (get_elem? swapped) q), λ _. from, λ lt. absurd (omega arith))
    | no q ↦ elim (ℕ_discrete k j) [
      | yes r ↦ (
        p,
        cc (
          at_p,
          get_elem?-set_ne (set m k e) p j u q,
          get_elem?-set_self m k e (get_elem?-lt m k at_k),
          ap (get_elem? (set m k e)) r,
        ),
        λ o. omega arith,
        λ lt. absurd (omega (arith, from)),
      )
      | no r ↦ (
        j,
        cc (get_elem?-set_ne (set m k e) p j u q, get_elem?-set_ne m k j e r),
        λ o. o,
        λ lt. refl,
      )
    ]
  ]

  swapped-SortedTo : SortedTo p m → SortedTo (suc p) swapped
  swapped-SortedTo sorted i j x y lt o hx hy =
      let (j', at_j, later, before_j) = swapped_from j y hy in
      elim (ℕ_discrete i p) [
        | yes q ↦
            let is_u : x ≡ u = cc (swapped_first, ap (get_elem? swapped) q) in
            rw is_u (below j' y (later (omega arith)) at_j)
        | no q ↦
            let (i', at_i, _, stays) = swapped_from i x hx in
            let same : i' ≡ i = stays (omega arith) in
            sorted i j' x y (omega arith)
              (elim (Bool-cases (ltb j p)) [
                | inl c ↦ omega (arith, before_j (ltb→lt _ _ c))
                | inr c ↦ omega (arith, later (ground arith))
              ])
              (ap (get_elem? m) (sym same) ∙ at_i) at_j
      ]

  length-swapped : length swapped ≡ length m
  length-swapped = length-set (set m k e) p u ∙ length-set m k e

module _ (m : List MemmapEntry) (p : ℕ) where
  select-swaps :
      p < length m
      → (e : MemmapEntry) × (at_p : get_elem? m p ≡ some e) × (k : ℕ) × (least : IsLeast m p k)
        × (select m p ≡ swapped m p e at_p k least)
  unfolding select
  select-swaps lt =
      let (e, at_p) = get_elem?-some m p lt in
      let least : IsLeast m p (min_loop m (length m - p) p e.base p) =
        min_loop-IsLeast m p (length m - p) p p e at_p (omega arith)
          (λ j f q o h. absurd (omega arith)) (omega arith) (omega arith) in
      (e, at_p, min_loop m (length m - p) p e.base p, least, rw (at_p, select) (rw least.at))

-- What the pass keeps, and that it sorts.
pub record Sorts (m m' : List MemmapEntry) : Type 0 where
  pub sums : (f : MemmapEntry → ℕ) → sum_by f m' ≡ sum_by f m
  pub in_order : IsSorted m'

sort_loop-Sorts :
    (rounds p : ℕ) (m : List MemmapEntry)
    → SortedTo p m
    → length m ≤ suc (p + rounds)
    → p + rounds < suc (length m)
    → Sorts m (sort_loop rounds p m)
unfolding sort_loop
sort_loop-Sorts zero p m sorted o lt = record {
  sums = λ f. refl;
  in_order = λ i j e f q at_i at_j. elim (Bool-cases (ltb i p)) [
    | inl c ↦ sorted i j e f (ltb→lt _ _ c) q at_i at_j
    | inr c ↦
        let same : i ≡ j = ground (arith, get_elem?-lt m i at_i, get_elem?-lt m j at_j) in
        ground (arith, ap (get_elem? m) same)
  ];
}
sort_loop-Sorts (suc rounds) p m sorted o lt =
    let (e, at_p, k, least, q) = select-swaps m p (omega arith) in
    let len : length (select m p) ≡ length m = rw q (length-swapped m p e at_p k least) in
    let rest =
      sort_loop-Sorts rounds (suc p) (select m p)
        (rw q (swapped-SortedTo m p e at_p k least sorted)) (omega arith) (omega arith) in
    record {
      sums = λ f. rest.sums f ∙ (rw q (sum_by-swapped m p e at_p k least f));
      in_order = rest.in_order;
    }

-- The third pass of pmm_sanitise_entries() leaves the entries sorted by their base addresses,
-- and every sum over the entries the same.
pub sort-Sorts : (m : List MemmapEntry) → Sorts m (sort m)
unfolding sort
sort-Sorts m =
    sort_loop-Sorts (length m - 1) 0 m (λ i j e f lt. absurd (omega arith)) (omega arith)
      (omega arith)
