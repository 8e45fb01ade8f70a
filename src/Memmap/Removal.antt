-- ===== src/Memmap/Removal.antt =====
-- What remains after the removal of an entry, as common/mm/pmm.s2.c does it.
use limine_eucleia.Prelude.{
  ℕ, suc, ◌+◌, ◌-◌, ◌≡◌, refl, ◌∙◌, List, some, arith, length, get_elem?, set, take, sum_by,
  sum_by-set, sum_by-take-suc, take-all, take-set, take-take, length-take, length-set, get_elem?-lt,
  get_elem?-some, get_elem?-set_ne, ltb, Bool-cases, inl, inr, if◌then◌else◌, ap,
}
use limine_eucleia.Memmap.Entry.{MemmapEntry, remove}

-- The entry that takes the place, and the array before the last entry is cut off.
shifted : List MemmapEntry → ℕ → MemmapEntry → List MemmapEntry
shifted m i last = if ltb i (length m - 1) then set m i last else m

remove-shifted :
    (m : List MemmapEntry) (i : ℕ) (last : MemmapEntry)
    → get_elem? m (length m - 1) ≡ some last
    → remove m i ≡ take (length m - 1) (shifted m i last)
unfolding remove shifted
remove-shifted m i last h = rw h refl

length-shifted :
    (m : List MemmapEntry) (i : ℕ) (last : MemmapEntry) → length (shifted m i last) ≡ length m
unfolding shifted
length-shifted m i last = ground (arith, length-set m i last)

last-shifted :
    (m : List MemmapEntry) (i : ℕ) (last : MemmapEntry)
    → get_elem? m (length m - 1) ≡ some last
    → get_elem? (shifted m i last) (length m - 1) ≡ some last
unfolding shifted
last-shifted m i last h = ground (arith, get_elem?-set_ne m i (length m - 1) last)

sum_by-shifted :
    (f : MemmapEntry → ℕ) (m : List MemmapEntry) (i : ℕ) (last : MemmapEntry) {e : MemmapEntry}
    → get_elem? m i ≡ some e
    → get_elem? m (length m - 1) ≡ some last
    → sum_by f (shifted m i last) + f e ≡ sum_by f m + f last
unfolding shifted
sum_by-shifted f m i last {e} h l = elim (Bool-cases (ltb i (length m - 1))) [
  | inl b ↦ rw b (sum_by-set f m i last h)
  | inr b ↦
      let same : i ≡ length m - 1 = ground (arith, get_elem?-lt m i h) in
      rw b (ap (λ x. sum_by f m + f x) (cc (ap (get_elem? m) same)))
]

-- A nonempty array has a last entry.
last_entry :
    (m : List MemmapEntry) (i : ℕ) {e : MemmapEntry}
    → get_elem? m i ≡ some e
    → (last : MemmapEntry) × (get_elem? m (length m - 1) ≡ some last)
last_entry m i h = get_elem?-some m (length m - 1) (omega (arith, get_elem?-lt m i h))

pub length-remove :
    (m : List MemmapEntry) (i : ℕ) {e : MemmapEntry}
    → get_elem? m i ≡ some e
    → suc (length (remove m i)) ≡ length m
length-remove m i h =
    let (last, l) = last_entry m i h in
    rw (remove-shifted m i last l) (
      omega (
        arith,
        length-take (length m - 1) (shifted m i last),
        length-shifted m i last,
        get_elem?-lt m i h,
      ))

pub sum_by-remove :
    (f : MemmapEntry → ℕ) (m : List MemmapEntry) (i : ℕ) {e : MemmapEntry}
    → get_elem? m i ≡ some e
    → sum_by f (remove m i) + f e ≡ sum_by f m
sum_by-remove f m i h =
    let (last, l) = last_entry m i h in
    let whole : take (suc (length m - 1)) (shifted m i last) ≡ shifted m i last =
      take-all (shifted m i last) (suc (length m - 1)) (omega (arith, length-shifted m i last)) in
    rw (remove-shifted m i last l) (
      omega (
        arith,
        sum_by-take-suc f (shifted m i last) (length m - 1) (last-shifted m i last l),
        ap (sum_by f) whole,
        sum_by-shifted f m i last h l,
      ))

pub take-remove :
    (m : List MemmapEntry) (i : ℕ) {e : MemmapEntry}
    → get_elem? m i ≡ some e
    → take i (remove m i) ≡ take i m
unfolding shifted
take-remove m i h =
    let (last, l) = last_entry m i h in
    rw (remove-shifted m i last l) (
      take-take (shifted m i last) i (length m - 1) (omega (arith, get_elem?-lt m i h))
      ∙ elim (Bool-cases (ltb i (length m - 1))) [
        | inl b ↦ rw b (take-set m i i last (omega arith))
        | inr b ↦ rw b refl
      ])
