-- ===== src/Memmap/Claim/Cover.antt =====
-- What a round of the loop of pmm_new_entry() does to the addresses, and that the loop comes to an
-- end.
use limine_eucleia.Prelude.{
  ℕ, suc, ◌+◌, ◌-◌, ◌≤◌, ◌<◌, ◌≡◌, refl, ◌⊎◌, inl, inr, List, [], ◌∷◌, ◌++◌, ◌&&◌, some, arith,
  length, set, ltb, if◌then◌else◌, get_elem?, take, sum_by, sum_by-set, sum_by-set_append,
  sum_by-take-suc, sum_by-take-suc-set, sum_by-take-suc_append, sum_by-take-le, Bool-cases, ltb→lt,
  ◌≢◌,
}
use limine_eucleia.Word.{word}
use limine_eucleia.Memmap.Entry.{MemmapEntry, remove, cover, hit, hits, covers, overflows}
use limine_eucleia.Memmap.Removal.{sum_by-remove, take-remove}
use limine_eucleia.Memmap.Claim.Step.{Move, again, advance, exhausted, claim_entry, claim_step}
use limine_eucleia.Memmap.Claim.Cases.{
  Outside, low, high, shaved, cover-shaved, cover-low_high, cover-low, cover-low_inside,
  cover-shaved_inside, cover-full, Case, full, bottom, upper, nested, no_room, apart,
  claim_entry-Case,
}

module _ (base top : ℕ) where
  -- An entry that the range splits is visited for both of its parts.
  abbrev pub visits : MemmapEntry → ℕ
  visits e =
      if ltb e.base base && (ltb top (e.base + e.length) && ltb (e.base + e.length) word)
      then 2
      else 1

  -- The claims on a round from the array `m` at `i`: what it keeps outside of the range, that the
  -- prefix stays free of the range, and that the visits to come get fewer.
  abbrev pub Keeps : List MemmapEntry → List MemmapEntry → Type 0
  Keeps m m' = (a t : ℕ) → Outside base top a → hits m' a t ≡ hits m a t

  abbrev pub Free : ℕ → List MemmapEntry → Type 0
  Free i m = (a : ℕ) → base ≤ a → a < top → covers (take i m) a ≡ 0

  abbrev pub left : ℕ → List MemmapEntry → ℕ
  left i m = sum_by visits m - sum_by visits (take i m)

  pub record Good (m : List MemmapEntry) (i : ℕ) (j : ℕ) (m' : List MemmapEntry) : Type 0 where
    pub keeps : Keeps m m'
    pub free : Free i m → Free j m'
    pub fewer : left j m' < left i m
    pub ends : sum_by overflows m' ≤ sum_by overflows m

  abbrev pub Next : List MemmapEntry → ℕ → Move → Type 0
  Next m i (again m') = Good m i i m'
  Next m i (advance m') = Good m i (suc i) m'
  Next m i exhausted = Unit

module _ (base top : ℕ) (m : List MemmapEntry) (i : ℕ) (e : MemmapEntry)
    (at : get_elem? m i ≡ some e) where
  -- The entry stays as it is.
  passed-Good : ((a : ℕ) → base ≤ a → a < top → cover a e ≡ 0) → Good base top m i (suc i) m
  passed-Good ins = record {
    keeps = λ a t out. refl;
    free = λ free a p q. omega (arith, sum_by-take-suc (cover a) m i at, free a p q, ins a p q);
    fewer = ground (
      arith,
      sum_by-take-suc (visits base top) m i at,
      sum_by-take-le (visits base top) m (suc i),
    );
    ends = omega arith;
  }

  removed-Good : ((a : ℕ) → Outside base top a → cover a e ≡ 0) → Good base top m i i (remove m i)
  removed-Good out = record {
    keeps = λ a t o. ground (arith, sum_by-remove (hit a t) m i at, out a o);
    free = λ free a p q. rw (take-remove m i at) (free a p q);
    fewer = rw (take-remove m i at) (
        ground (
          arith,
          sum_by-remove (visits base top) m i at,
          sum_by-take-suc (visits base top) m i at,
          sum_by-take-le (visits base top) m (suc i),
        ));
    ends = omega (arith, sum_by-remove overflows m i at);
  }

  replaced-Good :
      (v : MemmapEntry)
      → v.type ≡ e.type
      → visits base top v ≡ 1
      → overflows v ≡ 0
      → ((a : ℕ) → Outside base top a → cover a v ≡ cover a e)
      → ((a : ℕ) → base ≤ a → a < top → cover a v ≡ 0)
      → Good base top m i (suc i) (set m i v)
  replaced-Good v ty once valid out ins = record {
    keeps = λ a t o. omega (arith, sum_by-set (hit a t) m i v at, same a t o);
    free =
        λ free a p q. omega (arith, sum_by-take-suc-set (cover a) m i v at, free a p q, ins a p q);
    fewer = ground (
      arith,
      sum_by-take-suc (visits base top) m i at,
      sum_by-take-le (visits base top) m (suc i),
      sum_by-set (visits base top) m i v at,
      sum_by-take-suc-set (visits base top) m i v at,
    );
    ends = omega (arith, sum_by-set overflows m i v at, valid);
  }
    where
      same : (a t : ℕ) → Outside base top a → hit a t v ≡ hit a t e
      same a t o = rw ty (rw (out a o))

  split-Good :
      (v u : MemmapEntry)
      → v.type ≡ e.type
      → u.type ≡ e.type
      → visits base top v ≡ 1
      → visits base top u ≡ 1
      → visits base top e ≡ 2
      → overflows v + overflows u ≡ 0
      → ((a : ℕ) → Outside base top a → cover a v + cover a u ≡ cover a e)
      → ((a : ℕ) → base ≤ a → a < top → cover a v ≡ 0)
      → Good base top m i (suc i) (set m i v ++ (u ∷ []))
  split-Good v u ty tu once_v once_u twice valid out ins = record {
    keeps = λ a t o. omega (arith, sum_by-set_append (hit a t) m i v u at, same a t o);
    free = λ free a p q.
        omega (arith, sum_by-take-suc_append (cover a) m (u ∷ []) i v at, free a p q, ins a p q);
    fewer = omega (
      arith,
      sum_by-take-suc (visits base top) m i at,
      sum_by-take-le (visits base top) m (suc i),
      sum_by-set_append (visits base top) m i v u at,
      sum_by-take-suc_append (visits base top) m (u ∷ []) i v at,
    );
    ends = omega (arith, sum_by-set_append overflows m i v u at, valid);
  }
    where
      same : (a t : ℕ) → Outside base top a → hit a t v + hit a t u ≡ hit a t e
      same a t o = rw (ty, tu) (ground (arith, out a o))

  module _ (o : base ≤ top) (w : top < word) (max_entries : ℕ) where
    Case-Next :
        {mv : Move}
        → e.base + e.length < word
        → Case base top e max_entries m i mv
        → Next base top m i mv
    Case-Next ends (full p q) = removed-Good (λ a out. cover-full base top e a p q out)
    Case-Next ends (bottom p q r) =
        replaced-Good (shaved base top e) refl (ground arith) (ground arith)
          (λ a out. cover-shaved base top e ends a p q r out)
          (λ a _ h. cover-shaved_inside base top e ends a q r h)
    Case-Next ends (upper p q r) =
        replaced-Good (low base top e) refl (ground arith) (ground arith)
          (λ a out. cover-low base top e ends a p q r out)
          (λ a h _. cover-low_inside base top e ends a p q h)
    Case-Next ends (nested p q r) =
        split-Good (low base top e) (high base top e) refl refl (ground arith) (ground arith)
          (ground arith) (ground arith) (λ a out. cover-low_high base top e ends a o p q out)
          (λ a h _. cover-low_inside base top e ends a p (omega arith) h)
    Case-Next ends (no_room p q r) = tt
    Case-Next ends (apart p) = passed-Good (λ a h k. ground arith)

    Case-room :
        {mv : Move} → Case base top e max_entries m i mv → length m < max_entries → mv ≢ exhausted
    Case-room (full p q) h = cc
    Case-room (bottom p q r) h = cc
    Case-room (upper p q r) h = cc
    Case-room (nested p q r) h = cc
    Case-room (no_room p q r) h = absurd (omega arith)
    Case-room (apart p) h = cc

    -- Entries whose end is not representable are passed.
    claim_step-cases :
        ((e.base + e.length < word)
          × (claim_step max_entries base top m i e
              ≡ claim_entry max_entries base top m i e (e.base + e.length)))
        ⊎ ((word ≤ e.base + e.length) × (claim_step max_entries base top m i e ≡ advance m))
    unfolding claim_step
    claim_step-cases = elim (Bool-cases (ltb (e.base + e.length) word)) [
      | inl v ↦ inl (ltb→lt _ _ v, rw (v, claim_step) refl)
      | inr v ↦ inr (ground arith, rw (v, claim_step) refl)
    ]

    pub step-Next : Next base top m i (claim_step max_entries base top m i e)
    step-Next = elim claim_step-cases [
      | inl (v, q) ↦ rw q (Case-Next v (claim_entry-Case base top e max_entries m i o))
      | inr (v, q) ↦ rw q (passed-Good (λ a h k. ground arith))
    ]

    pub step-room : length m < max_entries → claim_step max_entries base top m i e ≢ exhausted
    step-room h = elim claim_step-cases [
      | inl (v, q) ↦ rw q (Case-room (claim_entry-Case base top e max_entries m i o) h)
      | inr (v, q) ↦ rw q (cc)
    ]
