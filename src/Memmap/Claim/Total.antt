-- ===== src/Memmap/Claim/Total.antt =====
-- pmm_new_entry() as a whole: it comes to an end, and the map afterwards says `type` of the range
-- and what it said before of every other address.
use limine_eucleia.Prelude.{
  ℕ, ◌+◌, ◌*◌, ◌≤◌, ◌<◌, ◌≡◌, refl, inl, inr, List, [], ◌∷◌, ◌++◌, Bool, ◌&&◌, arith, length, ltb,
  leb, if◌then◌else◌, sum_by, sum_by-append, Ends, Ends_mono, Ends-bind, Returns, Returns-ok,
  Ends-ok, lt→ltb, sum_by_mono, ok, ◌==◌, Bool-cases, ltb→lt,
}
use limine_eucleia.Word.{word}
use limine_eucleia.Memmap.Entry.{MemmapEntry, cover, hit, hits, overflows, hit-le-cover}
use limine_eucleia.Memmap.Claim.Step.{claim_loop, push_entry, new_entry}
use limine_eucleia.Memmap.Claim.Rounds.{Cleared, claim_loop-Cleared, claim_loop-room, visits-le}

-- Whether the address lies in [base, top).
abbrev pub inside : (base top a : ℕ) → Bool
inside base top a = leb base a && ltb a top

module _ (m : List MemmapEntry) (base len type : ℕ) where
  -- What a map says after the claim: an address of the range is in exactly one entry, and that has
  -- the type; every other address is in as many entries of each type as before.
  abbrev pub Claims : List MemmapEntry → Type 0
  Claims m' =
      (a t : ℕ)
      → hits m' a t
        ≡ (if inside base (base + len) a then (if type == t then 1 else 0) else hits m a t)

  abbrev target : MemmapEntry
  target = record { base = base; length = len; type = type }

  -- The map after the claim; ends that are representable stay so.
  abbrev pub Claimed : List MemmapEntry → Type 0
  Claimed m' = Claims m' × (sum_by overflows m' ≤ sum_by overflows m)

  overflows-push :
      base + len < word
      → (m' : List MemmapEntry) → sum_by overflows m' ≤ sum_by overflows m
      → sum_by overflows (m' ++ (target ∷ [])) ≤ sum_by overflows m
  overflows-push w m' h = ground (arith, sum_by-append overflows m' (target ∷ []))

  hits-push :
      base + len < word
      → (m' : List MemmapEntry) → Cleared base (base + len) m m'
      → Claims (m' ++ (target ∷ []))
  hits-push w m' c a t = elim (Bool-cases (inside base (base + len) a)) [
    | inl b ↦
        let none_left = c.1 a (ground arith) (ground arith) in
        let few = sum_by_mono (hit a t) (cover a) m' (hit-le-cover a t) in
        ground (arith, sum_by-append (hit a t) m' (target ∷ []), none_left, few)
    | inr b ↦ ground (arith, sum_by-append (hit a t) m' (target ∷ []), c.0 a t (ground arith))
  ]

  module _ (max_entries : ℕ) where
    push_entry-Claimed :
        base + len < word
        → (m' : List MemmapEntry) → Cleared base (base + len) m m'
        → Ends (push_entry max_entries m' target) Claimed
    unfolding push_entry
    push_entry-Claimed w m' c = elim (Bool-cases (leb max_entries (length m'))) [
      | inl full ↦ rw (full, push_entry) tt
      | inr room ↦ rw (room, push_entry) (hits-push w m' c, overflows-push w m' c.2)
    ]

    pushes :
        (m' : List MemmapEntry)
        → length m' < max_entries
        → push_entry max_entries m' target ≡ ok (m' ++ (target ∷ []))
    unfolding push_entry
    pushes m' h = ground arith

    pub new_entry-Claimed : Ends (new_entry max_entries m base len type) Claimed
    unfolding new_entry
    new_entry-Claimed = elim (Bool-cases (ltb (base + len) word)) [
      | inr wide ↦ rw (wide, new_entry) tt
      | inl fits ↦
          rw (fits, new_entry)
            (Ends-bind _ _ (Cleared base (base + len) m) Claimed
              (claim_loop-Cleared max_entries base (base + len) (omega arith) (ltb→lt _ _ fits)
                (2 * length m + 1) 0 m (omega (arith, visits-le base (base + len) m))
                (λ a _ _. refl))
              (push_entry-Claimed (ltb→lt _ _ fits)))
    ]

    -- pmm_new_entry() comes to an end on every map, by a panic or with a map in which an address
    -- of [base, base + length) is in exactly one entry, of the type asked for, and every other
    -- address is in as many entries of each type as before (of entries whose ends are
    -- representable).
    pub new_entry-Claims : Ends (new_entry max_entries m base len type) Claims
    new_entry-Claims = Ends_mono _ Claimed Claims (λ m' c. c.0) new_entry-Claimed

    -- For a range whose end is representable and a map that is less than half full,
    -- pmm_new_entry() returns without a panic, and claims the range: an address of it is in
    -- exactly one entry, of the type, and every other address is in as many entries of each type
    -- as before.
    pub new_entry-Returns :
        base + len < word
        → 2 * length m < max_entries
        → Returns (new_entry max_entries m base len type) Claims
    unfolding new_entry
    new_entry-Returns w room =
        let (m', q, small) =
          Returns-ok (claim_loop max_entries base (base + len) (2 * length m + 1) 0 m)
            (λ x. length x < max_entries)
            (claim_loop-room max_entries base (base + len) (omega arith) w (2 * length m + 1) 0 m
              (omega (arith, visits-le base (base + len) m))
              (omega (arith, visits-le base (base + len) m))) in
        let done : new_entry max_entries m base len type ≡ ok (m' ++ (target ∷ [])) =
          rw (lt→ltb _ _ w, new_entry) (rw q (pushes m' small)) in
        rw done (Ends-ok (new_entry max_entries m base len type) Claims new_entry-Claims done)
