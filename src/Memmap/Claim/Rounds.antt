-- ===== src/Memmap/Claim/Rounds.antt =====
-- The loop of pmm_new_entry(), by induction on its rounds.
use limine_eucleia.Prelude.{
  ℕ, zero, suc, ◌+◌, ◌*◌, ◌≤◌, ◌<◌, ◌≡◌, refl, ◌⊎◌, inl, inr, List, [], ◌∷◌, arith, length,
  get_elem?, sum_by, sum_by-take-le, take-all, get_elem?-none, Option-cases, Ends, Ends_mono, ◌∙◌,
  Returns,
}
use limine_eucleia.Word.{word}
use limine_eucleia.Memmap.Entry.{MemmapEntry, covers, overflows}
use limine_eucleia.Memmap.Claim.Step.{Move, again, advance, exhausted, claim_step, claim_loop}
use limine_eucleia.Memmap.Claim.Cover.{visits, Keeps, Free, left, Good, step-Next, step-room}

Move-cases :
    (mv : Move)
    → ((m : List MemmapEntry) × (mv ≡ again m))
      ⊎ (((m : List MemmapEntry) × (mv ≡ advance m)) ⊎ (mv ≡ exhausted))
Move-cases (again m) = inl (m, refl)
Move-cases (advance m) = inr (inl (m, refl))
Move-cases exhausted = inr (inr refl)

module _ (base top : ℕ) where
  visits_bounds : (e : MemmapEntry) → (1 ≤ visits base top e) × (visits base top e ≤ 2)
  visits_bounds e = ground arith

  pub visits-le : (m : List MemmapEntry) → sum_by (visits base top) m ≤ 2 * length m
  visits-le [] = omega arith
  visits-le (e ∷ m) = omega (arith, visits-le m, visits_bounds e)

  length-le-visits : (m : List MemmapEntry) → length m ≤ sum_by (visits base top) m
  length-le-visits [] = omega arith
  length-le-visits (e ∷ m) = omega (arith, length-le-visits m, visits_bounds e)

  length-le-left : (m : List MemmapEntry) (i : ℕ) → length m ≤ left base top i m + i
  length-le-left m zero = omega (arith, length-le-visits m)
  length-le-left [] (suc i) = omega arith
  length-le-left (e ∷ m) (suc i) =
      omega (arith, length-le-left m i, sum_by-take-le (visits base top) m i)

abbrev pub Cleared : (base top : ℕ) → List MemmapEntry → List MemmapEntry → Type 0
Cleared base top m m' =
    Keeps base top m m'
    × ((a : ℕ) → base ≤ a → a < top → covers m' a ≡ 0)
    × (sum_by overflows m' ≤ sum_by overflows m)

Cleared-trans :
    (base top : ℕ) (m m' : List MemmapEntry)
    → Keeps base top m m'
    → sum_by overflows m' ≤ sum_by overflows m
    → (m'' : List MemmapEntry) → Cleared base top m' m''
    → Cleared base top m m''
Cleared-trans base top m m' k n m'' c =
    (λ a t out. c.0 a t out ∙ k a t out, c.1, omega (arith, n, c.2))

module _ (max_entries base top : ℕ) (o : base ≤ top) (w : top < word) where
  pub claim_loop-Cleared :
      (fuel i : ℕ) (m : List MemmapEntry)
      → left base top i m < fuel
      → Free base top i m
      → Ends (claim_loop max_entries base top fuel i m) (Cleared base top m)
  unfolding claim_loop
  claim_loop-Cleared zero i m enough free = absurd (omega arith)
  claim_loop-Cleared (suc fuel) i m enough free = elim (Option-cases (get_elem? m i)) [
    | inl h ↦
        rw (h, claim_loop)
          (
            λ a t out. refl,
            λ a p q. rw (take-all m i (get_elem?-none m i h)) at (free a p q),
            omega arith,
          )
    | inr (e, h) ↦
        let next = step-Next base top m i e h o w max_entries in
        elim (Move-cases (claim_step max_entries base top m i e)) [
          | inl (m', q) ↦
              let good : Good base top m i i m' = rw q at next in
              rw (h, q, claim_loop)
                (Ends_mono _ (Cleared base top m') (Cleared base top m)
                  (Cleared-trans base top m m' good.keeps good.ends)
                  (claim_loop-Cleared fuel i m' (omega (arith, good.fewer)) (good.free free)))
          | inr (inl (m', q)) ↦
              let good : Good base top m i (suc i) m' = rw q at next in
              rw (h, q, claim_loop)
                (Ends_mono _ (Cleared base top m') (Cleared base top m)
                  (Cleared-trans base top m m' good.keeps good.ends)
                  (claim_loop-Cleared fuel (suc i) m' (omega (arith, good.fewer)) (good.free free)))
          | inr (inr q) ↦ rw (h, q, claim_loop) tt
        ]
  ]

  -- With room for the visits to come the loop does not find the map full.
  pub claim_loop-room :
      (fuel i : ℕ) (m : List MemmapEntry)
      → left base top i m < fuel
      → left base top i m + i < max_entries
      → Returns (claim_loop max_entries base top fuel i m) (λ m'. length m' < max_entries)
  unfolding claim_loop
  claim_loop-room zero i m enough room = absurd (omega arith)
  claim_loop-room (suc fuel) i m enough room = elim (Option-cases (get_elem? m i)) [
    | inl h ↦ rw (h, claim_loop) (omega (arith, get_elem?-none m i h))
    | inr (e, h) ↦
        let next = step-Next base top m i e h o w max_entries in
        elim (Move-cases (claim_step max_entries base top m i e)) [
          | inl (m', q) ↦
              let good : Good base top m i i m' = rw q at next in
              rw (h, q, claim_loop)
                (claim_loop-room fuel i m' (omega (arith, good.fewer)) (omega (arith, good.fewer)))
          | inr (inl (m', q)) ↦
              let good : Good base top m i (suc i) m' = rw q at next in
              rw (h, q, claim_loop)
                (claim_loop-room fuel (suc i) m' (omega (arith, good.fewer))
                  (omega (arith, good.fewer)))
          | inr (inr q) ↦ absurd (
              step-room base top m i e h o w max_entries
                (omega (arith, length-le-left base top m i)) q)
        ]
  ]
