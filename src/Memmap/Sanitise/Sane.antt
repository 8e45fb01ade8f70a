-- ===== src/Memmap/Sanitise/Sane.antt =====
-- pmm_sanitise_entries() as a whole: the four passes together.
use limine_eucleia.Prelude.{
  ℕ, ◌≤◌, ◌<◌, ◌≡◌, ◌≢◌, ◌⊎◌, ◌∙◌, Bool, true, false, List, arith, sum_by, sum_by_mono, Ends,
  Ends-bind, Ends_mono, Ends_of_Returns, inl, inr, ==_iff, ◌==◌, Bool-cases,
}
use limine_eucleia.Memmap.Entry.{
  MemmapEntry, usable, cover, hit, hits, covers, overflows, hit-le-cover,
}
use limine_eucleia.Memmap.Sanitise.Overlap.{too_wide}
use limine_eucleia.Memmap.Sanitise.Separate.{separate}
use limine_eucleia.Memmap.Sanitise.Separated.{Separated, separate-Separated}
use limine_eucleia.Memmap.Sanitise.Clip.{clip}
use limine_eucleia.Memmap.Sanitise.Clipped.{Clipped, clip-Clipped, empties}
use limine_eucleia.Memmap.Sanitise.Sort.{sort}
use limine_eucleia.Memmap.Sanitise.Sorted.{IsSorted, Sorts, sort-Sorts}
use limine_eucleia.Memmap.Sanitise.Merge.{merge}
use limine_eucleia.Memmap.Sanitise.Merged.{Merges, merge-Merges}
use limine_eucleia.Memmap.Sanitise.Passes.{sanitise}

-- What a sanitised map `m'` of `m` is. `others`, `usable_le`, `held`: the memory that is not usable
-- is the same, usable memory does not grow, and without the alignment no address drops out of the
-- map, but for a first page that is not kept. `alone`, `first_page`, `in_order`, `none_empty`: a
-- usable address is in one entry only, and in none of the first page unless that is kept; the
-- entries are sorted and not empty.
pub record Sane (keep_first_page align_entries : Bool) (m m' : List MemmapEntry) : Type 0 where
  pub others : (a t : ℕ) → t ≢ usable → hits m' a t ≡ hits m a t
  pub usable_le : (a : ℕ) → hits m' a usable ≤ hits m a usable
  pub held :
      align_entries ≡ false
      → (a : ℕ) → (keep_first_page ≡ true) ⊎ (0x1000 ≤ a)
      → 0 < covers m a
      → 0 < covers m' a
  pub alone : (a : ℕ) → 1 ≤ hits m' a usable → covers m' a ≡ 1
  pub first_page : keep_first_page ≡ false → (a : ℕ) → a < 0x1000 → hits m' a usable ≡ 0
  pub in_order : IsSorted m'
  pub none_empty : sum_by empties m' ≡ 0
  pub overflows_le : sum_by overflows m' ≤ sum_by overflows m

wide-le-overflows : (m : List MemmapEntry) → sum_by too_wide m ≤ sum_by overflows m
wide-le-overflows m = sum_by_mono too_wide overflows m (λ e. ground arith)

module _ (keep_first_page align_entries : Bool) where
  compose :
      (m apart clear m' : List MemmapEntry)
      → Separated align_entries m apart
      → Clipped keep_first_page apart clear
      → Sorts clear (sort clear)
      → Merges (sort clear) m'
      → Sane keep_first_page align_entries m m'
  compose m apart clear m' s c o g = record {
    others = λ a t h. elim (Bool-cases (t == usable)) [
      | inl q ↦ absurd (h ((==_iff t usable).0 q))
      | inr q ↦ ground (arith, s.0.others a t h, c.exact_hits a t, same a t)
    ];
    usable_le = λ a. ground (arith, s.0.usable_le a, c.exact_hits a usable, same a usable);
    held = λ f a h p. omega (arith, s.0.held f a p, c.covers_eq a h, same_covers a);
    alone = λ a p. ground (
      arith,
      c.exact_hits a usable,
      same a usable,
      same_covers a,
      s.1 a,
      c.covers_le a,
      sum_by_mono (hit a usable) (cover a) m' (hit-le-cover a usable),
    );
    first_page = λ f a p. ground (arith, c.exact_hits a usable, same a usable);
    in_order = g.in_order o.in_order;
    none_empty = omega (arith, g.empties_le, o.sums empties, c.none_empty);
    overflows_le =
        omega (arith, g.overflows_le, o.sums overflows, c.overflows_le, s.0.overflows_le);
  }
    where
      same : (a t : ℕ) → hits m' a t ≡ hits clear a t
      same a t = g.same_hits a t ∙ o.sums (hit a t)

      same_covers : (a : ℕ) → covers m' a ≡ covers clear a
      same_covers a = g.same_covers a ∙ o.sums (cover a)

  -- On a map in which no entry overflows 64 bits, the four passes of pmm_sanitise_entries() come
  -- to an end, by a panic for want of room or with a map in which: memory of every type but
  -- usable is the same; no address is in more usable entries than before; without the alignment
  -- no address drops out of the map, but for the first page where that is not kept; an address
  -- of a usable entry is in exactly that one entry; a first page that is not kept has no usable
  -- address; the entries are sorted by their bases, none is empty, and no more overflow than
  -- before.
  pub sanitise-Sane :
      (max_entries : ℕ) (m : List MemmapEntry)
      → sum_by overflows m ≡ 0
      → Ends
          (sanitise max_entries keep_first_page align_entries m)
          (Sane keep_first_page align_entries m)
  unfolding sanitise
  sanitise-Sane max_entries m fine =
      Ends-bind (separate max_entries align_entries m) _ (Separated align_entries m) Goal
        (separate-Separated align_entries max_entries m (omega (arith, wide-le-overflows m)))
        (λ apart s.
          Ends-bind (clip keep_first_page apart) _ (Clipped keep_first_page apart) Goal
            (Ends_of_Returns (clip keep_first_page apart) (Clipped keep_first_page apart)
              (clip-Clipped keep_first_page apart))
            (λ clear c.
              Ends_mono _ (Merges (sort clear)) Goal
                (λ m' g. compose m apart clear m' s c (sort-Sorts clear) g)
                (Ends_of_Returns (merge (sort clear)) (Merges (sort clear)) (
                  merge-Merges (sort clear) (
                    omega (
                      arith,
                      (sort-Sorts clear).sums overflows,
                      c.overflows_le,
                      s.0.overflows_le,
                    ))))))
    where
      Goal : List MemmapEntry → Type 0
      Goal = Sane keep_first_page align_entries m
