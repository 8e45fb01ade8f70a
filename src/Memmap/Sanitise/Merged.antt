-- ===== src/Memmap/Sanitise/Merged.antt =====
-- The last pass of pmm_sanitise_entries(): what the joins keep.
use limine_eucleia.Prelude.{
  ℕ, zero, suc, ◌+◌, ◌-◌, ◌≤◌, ◌<◌, ◌≡◌, refl, ap, ◌∙◌, sym, inl, inr, List, [], ◌∷◌, some, arith,
  length, get_elem?, set, sum_by, sum_by-set, get_elem?-lt, get_elem?-set_self, get_elem?-set_ne,
  length-set, Option-cases, le-sum_by, Returns, Returns_mono,
}
use native.Mathlib.Decide.{ℕ_discrete}
use limine_eucleia.Memmap.Entry.{MemmapEntry, cover, hit, hits, covers, overflows}
use limine_eucleia.Memmap.Sanitise.Clipped.{empties}
use limine_eucleia.Memmap.Sanitise.Sorted.{IsSorted}
use limine_eucleia.Memmap.Sanitise.Merge.{join, eradicate, merge_loop, merge}

sum_by-eradicate :
    (f : MemmapEntry → ℕ) (m : List MemmapEntry) (i : ℕ) (g : MemmapEntry)
    → get_elem? m (suc i) ≡ some g
    → sum_by f (eradicate i m) + f g ≡ sum_by f m
sum_by-eradicate f [] i g h = absurd (ground arith)
sum_by-eradicate f (x ∷ []) i g h = absurd (ground arith)
sum_by-eradicate f (x ∷ y ∷ m) zero g h = ground arith
sum_by-eradicate f (x ∷ y ∷ m) (suc i) g h = omega (arith, sum_by-eradicate f (y ∷ m) i g h)

length-eradicate :
    (m : List MemmapEntry) (i : ℕ) (g : MemmapEntry)
    → get_elem? m (suc i) ≡ some g
    → suc (length (eradicate i m)) ≡ length m
length-eradicate [] i g h = absurd (ground arith)
length-eradicate (x ∷ []) i g h = absurd (ground arith)
length-eradicate (x ∷ y ∷ m) zero g h = refl
length-eradicate (x ∷ y ∷ m) (suc i) g h = ap suc (length-eradicate (y ∷ m) i g h)

-- Where an entry of the shorter array stood before.
abbrev before : ℕ → ℕ → ℕ
before zero zero = 0
before zero (suc k) = suc (suc k)
before (suc i) zero = 0
before (suc i) (suc k) = suc (before i k)

before_mono : (i k l : ℕ) → k ≤ l → before i k ≤ before i l
before_mono zero zero l h = omega arith
before_mono zero (suc k) zero h = absurd (omega arith)
before_mono zero (suc k) (suc l) h = omega arith
before_mono (suc i) zero l h = omega arith
before_mono (suc i) (suc k) zero h = absurd (omega arith)
before_mono (suc i) (suc k) (suc l) h = omega (arith, before_mono i k l (omega arith))

get_elem?-eradicate :
    (m : List MemmapEntry) (i k : ℕ) (g : MemmapEntry)
    → get_elem? m (suc i) ≡ some g
    → get_elem? (eradicate i m) k ≡ get_elem? m (before i k)
get_elem?-eradicate [] i k g h = absurd (ground arith)
get_elem?-eradicate (x ∷ []) i k g h = absurd (ground arith)
get_elem?-eradicate (x ∷ y ∷ m) zero zero g h = refl
get_elem?-eradicate (x ∷ y ∷ m) zero (suc k) g h = refl
get_elem?-eradicate (x ∷ y ∷ m) (suc i) zero g h = refl
get_elem?-eradicate (x ∷ y ∷ m) (suc i) (suc k) g h = get_elem?-eradicate (y ∷ m) i k g h

module _ (e f joined : MemmapEntry) (q : join e f ≡ some joined) where
  join_base : joined.base ≡ e.base
  unfolding join
  join_base = ground arith

  join_cover : (a : ℕ) → overflows f ≡ 0 → cover a joined ≡ cover a e + cover a f
  unfolding join
  join_cover a h = ground arith

  join_hit : (a t : ℕ) → overflows f ≡ 0 → hit a t joined ≡ hit a t e + hit a t f
  unfolding join
  join_hit a t h = ground arith

  join_overflows : overflows f ≡ 0 → overflows joined ≡ 0
  unfolding join
  join_overflows h = ground arith

  join_empties : empties joined ≤ empties e
  unfolding join
  join_empties = ground arith

-- What the pass keeps of a map.
pub record Merges (m m' : List MemmapEntry) : Type 0 where
  pub same_hits : (a t : ℕ) → hits m' a t ≡ hits m a t
  pub same_covers : (a : ℕ) → covers m' a ≡ covers m a
  pub in_order : IsSorted m → IsSorted m'
  pub empties_le : sum_by empties m' ≤ sum_by empties m
  pub overflows_le : sum_by overflows m' ≤ sum_by overflows m

Merges-trans :
    (m m' : List MemmapEntry)
    → Merges m m'
    → (m'' : List MemmapEntry) → Merges m' m''
    → Merges m m''
Merges-trans m m' k m'' l = record {
  same_hits = λ a t. l.same_hits a t ∙ k.same_hits a t;
  same_covers = λ a. l.same_covers a ∙ k.same_covers a;
  in_order = λ o. l.in_order (k.in_order o);
  empties_le = omega (arith, k.empties_le, l.empties_le);
  overflows_le = omega (arith, k.overflows_le, l.overflows_le);
}

Merges-refl : (m : List MemmapEntry) → Merges m m
Merges-refl m = record {
  same_hits = λ a t. refl;
  same_covers = λ a. refl;
  in_order = λ o. o;
  empties_le = omega arith;
  overflows_le = omega arith;
}

-- One join.
module _ (m : List MemmapEntry) (i : ℕ) (e f joined : MemmapEntry) (at : get_elem? m i ≡ some e)
    (at_next : get_elem? m (suc i) ≡ some f) (q : join e f ≡ some joined)
    (fine : sum_by overflows m ≡ 0) where
  abbrev shorter : List MemmapEntry
  shorter = eradicate i (set m i joined)

  next_same : get_elem? (set m i joined) (suc i) ≡ some f
  next_same = get_elem?-set_ne m i (suc i) joined (λ z. omega arith) ∙ at_next

  fine_f : overflows f ≡ 0
  fine_f = omega (arith, le-sum_by overflows m (suc i) at_next)

  sum_by-shorter : (g : MemmapEntry → ℕ) → sum_by g shorter + g f + g e ≡ sum_by g m + g joined
  sum_by-shorter g =
      omega (arith, sum_by-eradicate g (set m i joined) i f next_same, sum_by-set g m i joined at)

  length-shorter : suc (length shorter) ≡ length m
  length-shorter = length-eradicate (set m i joined) i f next_same ∙ length-set m i joined

  base_same :
      (k : ℕ) (u : MemmapEntry)
      → get_elem? (set m i joined) k ≡ some u
      → (v : MemmapEntry) × (get_elem? m k ≡ some v) × (u.base ≡ v.base)
  base_same k u h = elim (ℕ_discrete i k) [
    | yes s ↦
        let is_joined : u ≡ joined = cc (
          get_elem?-set_self m i joined (get_elem?-lt m i at),
          ap (get_elem? (set m i joined)) s,
        ) in
        (
          e,
          ap (get_elem? m) (sym s) ∙ at,
          ap (λ (x : MemmapEntry). x.base) is_joined ∙ join_base e f joined q,
        )
    | no s ↦ (u, sym (get_elem?-set_ne m i k joined s) ∙ h, refl)
  ]

  shorter-IsSorted : IsSorted m → IsSorted shorter
  shorter-IsSorted o k l x y kl hx hy =
      let (x', at_x, bx) =
        base_same (before i k) x
          (sym (get_elem?-eradicate (set m i joined) i k f next_same) ∙ hx) in
      let (y', at_y, by) =
        base_same (before i l) y
          (sym (get_elem?-eradicate (set m i joined) i l f next_same) ∙ hy) in
      omega (arith, bx, by, o (before i k) (before i l) x' y' (before_mono i k l kl) at_x at_y)

  shorter-Merges : Merges m shorter
  shorter-Merges = record {
    same_hits = λ a t. omega (arith, sum_by-shorter (hit a t), join_hit e f joined q a t fine_f);
    same_covers = λ a. omega (arith, sum_by-shorter (cover a), join_cover e f joined q a fine_f);
    in_order = shorter-IsSorted;
    empties_le = omega (arith, sum_by-shorter empties, join_empties e f joined q);
    overflows_le = omega (arith, sum_by-shorter overflows, join_overflows e f joined q fine_f);
  }

merge_loop-Merges :
    (fuel i : ℕ) (m : List MemmapEntry)
    → sum_by overflows m ≡ 0
    → length m - i < fuel
    → Returns (merge_loop fuel i m) (Merges m)
unfolding merge_loop
merge_loop-Merges zero i m fine enough = absurd (omega arith)
merge_loop-Merges (suc fuel) i m fine enough = elim (Option-cases (get_elem? m i)) [
  | inl h ↦ rw (h, merge_loop) (Merges-refl m)
  | inr (e, h) ↦ elim (Option-cases (get_elem? m (suc i))) [
    | inl g ↦ rw (h, g, merge_loop) (Merges-refl m)
    | inr (f, g) ↦ elim (Option-cases (join e f)) [
      | inl q ↦
          rw (h, g, q, merge_loop)
            (merge_loop-Merges fuel (suc i) m fine (omega (arith, get_elem?-lt m (suc i) g)))
      | inr (joined, q) ↦
          let step = shorter-Merges m i e f joined h g q fine in
          rw (h, g, q, merge_loop)
            (Returns_mono _ (Merges (eradicate i (set m i joined))) (Merges m)
              (Merges-trans m (eradicate i (set m i joined)) step)
              (merge_loop-Merges fuel i (eradicate i (set m i joined))
                (omega (arith, step.overflows_le))
                (omega
                  (arith, length-shorter m i e f joined h g q fine, get_elem?-lt m (suc i) g))))
    ]
  ]
]

-- The last pass of pmm_sanitise_entries() returns on every map in which no entry overflows, and
-- keeps of how many entries of each type, and of how many in all, each address is in; a sorted
-- map stays sorted, and no more entries are empty or overflow.
pub merge-Merges : (m : List MemmapEntry) → sum_by overflows m ≡ 0 → Returns (merge m) (Merges m)
unfolding merge
merge-Merges m fine = merge_loop-Merges (length m + 1) 0 m fine (omega arith)
