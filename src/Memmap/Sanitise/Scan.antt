-- ===== src/Memmap/Sanitise/Scan.antt =====
-- One round of the loop over `j` in the first pass of pmm_sanitise_entries().
use limine_eucleia.Prelude.{
  ℕ, suc, ◌+◌, ◌≤◌, ◌<◌, ◌≡◌, ◌≢◌, refl, ap, ◌∙◌, sym, inl, inr, List, ◌++◌, some, arith, ltb,
  if◌then◌else◌, get_elem?, set, take, sum_by, sum_by-set, sum_by-append, sum_by-take-suc,
  sum_by-take-set, take-append, take-set, length-set, get_elem?-lt, get_elem?-set_self,
  get_elem?-append, get_elem?-set_ne, le-sum_by, Bool-cases, ltb→lt,
}
use limine_eucleia.Memmap.Entry.{MemmapEntry, usable, cover, hit, hits, covers, overflows}
use limine_eucleia.Memmap.Sanitise.Overlap.{size, too_wide}

-- What every step of the first pass keeps of a map: the other types hold what they held, no address
-- is in more entries than before, none is lost, and the sizes do not grow.
pub record Kept (m m' : List MemmapEntry) : Type 0 where
  pub others : (a t : ℕ) → t ≢ usable → hits m' a t ≡ hits m a t
  pub usable_le : (a : ℕ) → hits m' a usable ≤ hits m a usable
  pub covers_le : (a : ℕ) → covers m' a ≤ covers m a
  pub held : (a : ℕ) → 0 < covers m a → 0 < covers m' a
  pub size_le : sum_by size m' ≤ sum_by size m
  pub wide_le : sum_by too_wide m' ≤ sum_by too_wide m
  pub overflows_le : sum_by overflows m' ≤ sum_by overflows m

pub Kept-refl : (m : List MemmapEntry) → Kept m m
Kept-refl m = record {
  others = λ a t h. refl;
  usable_le = λ a. omega arith;
  covers_le = λ a. omega arith;
  held = λ a h. h;
  size_le = omega arith;
  wide_le = omega arith;
  overflows_le = omega arith;
}

pub Kept-trans : (m m' m'' : List MemmapEntry) → Kept m m' → Kept m' m'' → Kept m m''
Kept-trans m m' m'' k l = record {
  others = λ a t h. l.others a t h ∙ k.others a t h;
  usable_le = λ a. omega (arith, k.usable_le a, l.usable_le a);
  covers_le = λ a. omega (arith, k.covers_le a, l.covers_le a);
  held = λ a h. l.held a (k.held a h);
  size_le = omega (arith, k.size_le, l.size_le);
  wide_le = omega (arith, k.wide_le, l.wide_le);
  overflows_le = omega (arith, k.overflows_le, l.overflows_le);
}

-- Before the round over `j` the entry at `i` meets no earlier entry but itself.
abbrev pub Alone : (i j : ℕ) → List MemmapEntry → Type 0
Alone i j m =
    (a : ℕ) (e : MemmapEntry)
    → get_elem? m i ≡ some e
    → cover a e ≡ 1
    → covers (take j m) a ≤ (if ltb i j then 1 else 0)

-- The entry at `i` is still there, and so is what stands before it.
pub record Holds (i : ℕ) (m m' : List MemmapEntry) : Type 0 where
  pub kept : Kept m m'
  pub prefix : take i m' ≡ take i m
  pub entry : MemmapEntry
  pub at : get_elem? m' i ≡ some entry
  pub is_usable : entry.type ≡ usable

-- `e` becomes `v`, and `added` is appended: together they hold no more than `e`, and what they lose
-- of it `f` holds.
pub record Fits (e v f : MemmapEntry) (added : List MemmapEntry) : Type 0 where
  pub v_usable : v.type ≡ usable
  pub added_others : (a t : ℕ) → t ≢ usable → hits added a t ≡ 0
  pub added_usable : (a : ℕ) → hits added a usable ≡ covers added a
  pub within : (a : ℕ) → cover a v + covers added a ≤ cover a e
  pub rest : (a : ℕ) → cover a e ≤ cover a v + covers added a + cover a f
  pub sizes : size v + sum_by size added ≤ size e
  pub narrow : too_wide v + sum_by too_wide added ≡ 0
  pub ends : overflows v + sum_by overflows added ≡ 0

module _ (m : List MemmapEntry) (i : ℕ) (e v : MemmapEntry) (at : get_elem? m i ≡ some e)
    (e_usable : e.type ≡ usable) where
  module _ (added : List MemmapEntry) (j : ℕ) (f : MemmapEntry) (at_j : get_elem? m j ≡ some f)
      (ne : i ≢ j) (fits : Fits e v f added) where
    open fits use {v_usable, added_others, added_usable, within, rest, sizes, narrow, ends}

    replace-Kept : Kept m (set m i v ++ added)
    replace-Kept = record {
      others = λ a t h. ground (
        arith,
        sum_by-append (hit a t) (set m i v) added,
        sum_by-set (hit a t) m i v at,
        added_others a t h,
      );
      usable_le = λ a. ground (
        arith,
        sum_by-append (hit a usable) (set m i v) added,
        sum_by-set (hit a usable) m i v at,
        added_usable a,
        within a,
      );
      covers_le = λ a. omega (
        arith,
        sum_by-append (cover a) (set m i v) added,
        sum_by-set (cover a) m i v at,
        within a,
      );
      held = λ a h. omega (
        arith,
        sum_by-append (cover a) (set m i v) added,
        sum_by-set (cover a) m i v at,
        rest a,
        le-sum_by (cover a) (set m i v) j (get_elem?-set_ne m i j v ne ∙ at_j),
      );
      size_le =
          omega (arith, sum_by-append size (set m i v) added, sum_by-set size m i v at, sizes);
      wide_le =
          omega
            (arith, sum_by-append too_wide (set m i v) added, sum_by-set too_wide m i v at, narrow);
      overflows_le =
          omega
            (arith, sum_by-append overflows (set m i v) added, sum_by-set overflows m i v at, ends);
    }

    pub replaced_at : get_elem? (set m i v ++ added) i ≡ some v
    replaced_at =
        get_elem?-append (set m i v) added i (omega (arith, length-set m i v, get_elem?-lt m i at))
        ∙ get_elem?-set_self m i v (get_elem?-lt m i at)

    pub replace-Holds : Holds i m (set m i v ++ added)
    replace-Holds = record {
      kept = replace-Kept;
      prefix =
          take-append (set m i v) added i (omega (arith, length-set m i v, get_elem?-lt m i at))
          ∙ take-set m i i v (omega arith);
      entry = v;
      at = replaced_at;
      is_usable = v_usable;
    }

    pub replace-Alone :
        ((a : ℕ) → cover a v + cover a f ≤ 1) → Alone i j m → Alone i (suc j) (set m i v ++ added)
    replace-Alone apart alone a u at' c =
        let same : u ≡ v = cc replaced_at in
        let one : cover a v ≡ 1 = ap (cover a) (sym same) ∙ c in
        let whole : cover a e ≡ 1 = ground (arith, within a) in
        let before = alone a e at whole in
        let short =
          take-append (set m i v) added (suc j)
            (omega (arith, length-set m i v, get_elem?-lt m j at_j)) in
        rw short (elim (Bool-cases (ltb i (suc j))) [
          | inl b ↦ rw b (
              ground (
                arith,
                before,
                apart a,
                sum_by-take-set (cover a) m (suc j) i v at (ltb→lt _ _ b),
                sum_by-take-suc (cover a) m j at_j,
              ))
          | inr b ↦
              rw (b, take-set m (suc j) i v (ground arith))
                (ground (arith, before, apart a, sum_by-take-suc (cover a) m j at_j))
        ])
