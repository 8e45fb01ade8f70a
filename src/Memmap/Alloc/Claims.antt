-- ===== src/Memmap/Alloc/Claims.antt =====
-- What a successful memmap_alloc_range_in() leaves of the memory map.
use limine_eucleia.Prelude.{
  ℕ, ◌+◌, ◌≤◌, ◌<◌, ◌≡◌, ◌≢◌, ◌⊎◌, ◌∙◌, sym, refl, Bool, true, false, List, [], ◌∷◌, arith, sum_by,
  sum_by_mono, Ends, Ends-bind, Ends_mono, inl, inr, ◌==◌, Bool-cases, ltb,
}
use mathlib.Core.Bool.{false≢true}
use native.Mathlib.Decide.{ℕ_discrete}
use limine_eucleia.Word.{word}
use limine_eucleia.Memmap.Entry.{
  MemmapEntry, usable, cover, hit, hits, covers, overflows, hit-le-cover,
}
use limine_eucleia.Memmap.Claim.Step.{new_entry}
use limine_eucleia.Memmap.Claim.Total.{inside, Claimed, new_entry-Claimed}
use limine_eucleia.Memmap.Sanitise.Passes.{sanitise}
use limine_eucleia.Memmap.Sanitise.Sane.{Sane, sanitise-Sane}
use limine_eucleia.Memmap.Alloc.Range.{Pmm, check_type, commit, alloc_range, holds_range}

-- An address whose entries all have one type has that type for pmm_check_type().
pub check_type-of_hits :
    (m : List MemmapEntry) (a t : ℕ)
    → ((u : ℕ) → u ≢ t → hits m a u ≡ 0)
    → 0 < covers m a
    → check_type m a ≡ t
unfolding check_type
check_type-of_hits [] a t other h = absurd (omega arith)
check_type-of_hits (e ∷ m) a t other h = elim (ℕ_discrete e.type t) [
  | yes q ↦ ground (arith, check_type-of_hits m a t (λ u ne. omega (arith, other u ne)))
  | no q ↦
      ground (arith, other e.type q, check_type-of_hits m a t (λ u ne. omega (arith, other u ne)))
]

covers_of_hits : (m : List MemmapEntry) (a t : ℕ) → 0 < hits m a t → 0 < covers m a
covers_of_hits m a t h = omega (arith, sum_by_mono (hit a t) (cover a) m (hit-le-cover a t))

module _ (p : Pmm) (base len type : ℕ) where
  -- An address of the range has the type, unless it is usable memory in a first page that is not
  -- kept; elsewhere other memory than usable is the same, and usable memory does not grow.
  pub record Allocated (m' : List MemmapEntry) : Type 0 where
    pub none_else : (a u : ℕ) → inside base (base + len) a ≡ true → u ≢ type → hits m' a u ≡ 0
    pub there :
        (a : ℕ)
        → inside base (base + len) a ≡ true
        → ((p.keep_first_page ≡ true) ⊎ (0x1000 ≤ a)) ⊎ (type ≢ usable)
        → 0 < covers m' a
    pub typed : (a : ℕ) → inside base (base + len) a ≡ true → type ≢ usable → hits m' a type ≡ 1
    pub elsewhere :
        (a t : ℕ)
        → inside base (base + len) a ≡ false
        → t ≢ usable
        → hits m' a t ≡ hits p.memmap a t
    pub usable_le :
        (a : ℕ) → inside base (base + len) a ≡ false → hits m' a usable ≤ hits p.memmap a usable
    pub ends : sum_by overflows m' ≡ 0

  Allocated-check_type :
      (m' : List MemmapEntry)
      → Allocated m'
      → (a : ℕ) → inside base (base + len) a ≡ true
      → ((p.keep_first_page ≡ true) ⊎ (0x1000 ≤ a)) ⊎ (type ≢ usable)
      → check_type m' a ≡ type
  Allocated-check_type m' al a i c =
      check_type-of_hits m' a type (λ u ne. al.none_else a u i ne) (al.there a i c)

  module _ (m m' : List MemmapEntry) (c : Claimed p.memmap base len type m)
      (s : Sane p.keep_first_page false m m') (fine : sum_by overflows p.memmap ≡ 0) where
    claimed_type : (a : ℕ) → inside base (base + len) a ≡ true → hits m a type ≡ 1
    claimed_type a i = c.0 a type ∙ rw i (ground arith)

    claimed_other : (a u : ℕ) → inside base (base + len) a ≡ true → u ≢ type → hits m a u ≡ 0
    claimed_other a u i ne = c.0 a u ∙ rw i (ground arith)

    claimed_outside :
        (a u : ℕ) → inside base (base + len) a ≡ false → hits m a u ≡ hits p.memmap a u
    claimed_outside a u i = c.0 a u ∙ rw i refl

    sane-Allocated : Allocated m'
    sane-Allocated = record {
      none_else = λ a u i ne. elim (ℕ_discrete u usable) [
        | yes q ↦ rw q (omega (arith, s.usable_le a, rw q at (claimed_other a u i ne)))
        | no q ↦ s.others a u q ∙ claimed_other a u i ne
      ];
      there = λ a i h. elim h [
        | inl kept ↦ s.held refl a kept (covers_of_hits m a type (omega (arith, claimed_type a i)))
        | inr other ↦
            covers_of_hits m' a type (omega (arith, s.others a type other, claimed_type a i))
      ];
      typed = λ a i ne. s.others a type ne ∙ claimed_type a i;
      elsewhere = λ a t i ne. s.others a t ne ∙ claimed_outside a t i;
      usable_le = λ a i. omega (arith, s.usable_le a, claimed_outside a usable i);
      ends = omega (arith, s.overflows_le, c.1);
    }

  module _ (fine : sum_by overflows p.memmap ≡ 0) where
    commit-Allocated : Ends (commit p base len type) (λ r. (r.0 ≡ true) × Allocated r.1)
    unfolding commit
    commit-Allocated =
        Ends-bind (new_entry p.max_entries p.memmap base len type) _
          (Claimed p.memmap base len type) (λ r. (r.0 ≡ true) × Allocated r.1)
          (new_entry-Claimed p.memmap base len type p.max_entries)
          (λ m c.
            Ends-bind (sanitise p.max_entries p.keep_first_page false m) _
              (Sane p.keep_first_page false m) (λ r. (r.0 ≡ true) × Allocated r.1)
              (sanitise-Sane p.keep_first_page false p.max_entries m (omega (arith, c.1)))
              (λ m' s. (refl, sane-Allocated m m' c s fine)))

    -- What a call that is not a simulation returns, for a range that is not empty: `false` with the
    -- map as it was, which it may not if it was to panic, or `true` with the range allocated; without
    -- `new_entry`, a range of the overlay type.
    abbrev pub Outcome :
        (overlay_type : ℕ) (do_panic fresh : Bool) → Bool × List MemmapEntry → Type 0
    Outcome overlay_type do_panic fresh r =
        (do_panic ≡ true → r.0 ≡ true)
        × (r.0 ≡ false → r.1 ≡ p.memmap)
        × (r.0 ≡ true → Allocated r.1)
        × (r.0 ≡ true
            → fresh ≡ false
            → overlay_type ≢ 0
            → (a : ℕ) → inside base (base + len) a ≡ true
            → 0 < hits p.memmap a overlay_type)

pub holds_range-hits :
    (overlay_type base top : ℕ) (m : List MemmapEntry) (a : ℕ)
    → inside base top a ≡ true
    → overlay_type ≢ 0
    → holds_range overlay_type base top m ≡ true
    → 0 < hits m a overlay_type
unfolding holds_range
holds_range-hits overlay_type base top [] a i ne h = absurd (false≢true h)
holds_range-hits overlay_type base top (e ∷ m) a i ne h =
    ground (arith, holds_range-hits overlay_type base top m a i ne)

module _ (p : Pmm) (base len type : ℕ) (fine : sum_by overflows p.memmap ≡ 0)
    (overlay_type : ℕ) where
  refused :
      (do_panic fresh : Bool)
      → do_panic ≡ false
      → Outcome p base len type fine overlay_type do_panic fresh (false, p.memmap)
  refused do_panic fresh calm = (
    λ e. absurd (false≢true (sym calm ∙ e)),
    λ e. refl,
    λ e. absurd (false≢true e),
    λ e. absurd (false≢true e),
  )

  committed :
      (do_panic fresh : Bool)
      → (fresh ≡ false → holds_range overlay_type base (base + len) p.memmap ≡ true)
      → Ends (commit p base len type) (Outcome p base len type fine overlay_type do_panic fresh)
  committed do_panic fresh found =
      Ends_mono (commit p base len type) (λ r. (r.0 ≡ true) × Allocated p base len type r.1)
        (Outcome p base len type fine overlay_type do_panic fresh)
        (λ r al. (
          λ e. al.0,
          λ e. absurd (false≢true (sym e ∙ al.0)),
          λ e. al.1,
          λ e old ne a i.
              holds_range-hits overlay_type base (base + len) p.memmap a i ne (found old),
        ))
        (commit-Allocated p base len type fine)

  -- On a state whose map has no overflowing entry, and for a length other than 0,
  -- memmap_alloc_range() without simulation comes to an end: it panics, or returns false with
  -- the map as it was, which it does not do with do_panic, or returns true with a map in which
  -- no entry overflows, no address of the range is in an entry of another type, an address of
  -- the range is in an entry (in exactly one of the type, for a type other than usable; for
  -- usable memory where it is above a first page that is not kept), all memory outside of it
  -- that is not usable is the same, and no address outside is in more usable entries; and
  -- without new_entry all of the range was memory of the overlay type, if that is not 0.
  pub alloc_range-Outcome :
      (do_panic fresh : Bool)
      → len ≢ 0
      → Ends
          (alloc_range p base len type overlay_type do_panic false fresh)
          (Outcome p base len type fine overlay_type do_panic fresh)
  unfolding alloc_range
  alloc_range-Outcome do_panic fresh some_len =
      let nonzero : (len == 0) ≡ false = ground arith in
      rw (nonzero, alloc_range)
        (elim (Bool-cases (ltb (base + len) word)) [
          | inr wide ↦ rw wide (elim (Bool-cases do_panic) [
            | inl c ↦ rw c tt
            | inr c ↦ rw c (refused false fresh refl)
          ])
          | inl w ↦ rw w (elim (Bool-cases (holds_range overlay_type base (base + len) p.memmap)) [
            | inl c ↦ rw c (committed do_panic fresh (λ _. c))
            | inr c ↦ rw c (elim (Bool-cases fresh) [
              | inl d ↦ rw d (committed do_panic true (λ e. absurd (false≢true (sym e))))
              | inr d ↦ rw d (elim (Bool-cases do_panic) [
                | inl g ↦ rw g tt
                | inr g ↦ rw g (refused false false refl)
              ])
            ])
          ])
        ])
