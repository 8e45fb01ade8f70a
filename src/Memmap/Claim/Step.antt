-- ===== src/Memmap/Claim/Step.antt =====
-- The loop of pmm_new_entry().
use limine_eucleia.Prelude.{
  ℕ, zero, suc, ◌+◌, ◌*◌, ◌&&◌, none, some, List, [], ◌∷◌, ◌++◌, ltb, leb, if◌then◌else◌, length,
  get_elem?, set, Result, ok, panic, out_of_fuel, ◌>>=◌,
}
use limine_eucleia.Word.{add64, sub64, checked_add}
use limine_eucleia.Memmap.Entry.{MemmapEntry, remove}

-- What one round does: look at the same index again, go on to the next, or find the map full.
pub data Move : Type 0 where
  again : List MemmapEntry → Move
  advance : List MemmapEntry → Move
  exhausted : Move

module _ (max_entries base top : ℕ) where
  -- The body for the entry `e` at `i`, once its end is known.
  unfoldable pub claim_entry : List MemmapEntry → ℕ → MemmapEntry → ℕ → Move
  claim_entry m i e entry_top =
      if leb base e.base && leb entry_top top
      then again (remove m i)
      else if leb base e.base && (ltb top entry_top && ltb e.base top)
      then advance (
          set m i (record e {
            base = add64 e.base (sub64 top e.base);
            length = sub64 e.length (sub64 top e.base);
          }))
      else if ltb e.base base && (ltb base entry_top && leb entry_top top)
      then advance (set m i (record e { length = sub64 e.length (sub64 entry_top base) }))
      else if ltb e.base base && ltb top entry_top
      then (if leb max_entries (length m)
          then exhausted
          else advance (
              set m i (record e { length = sub64 e.length (sub64 entry_top base) })
              ++ (record { base = top; length = sub64 entry_top top; type = e.type } ∷ [])))
      else advance m

  unfoldable pub claim_step : List MemmapEntry → ℕ → MemmapEntry → Move
  unfolding claim_entry
  claim_step m i e = elim (checked_add e.base e.length) [
    | none ↦ advance m
    | some entry_top ↦ claim_entry m i e entry_top
  ]

  -- `for (size_t i = 0; i < count; i++)`, where `i--; continue;` looks at `i` again.
  unfoldable pub claim_loop : ℕ → ℕ → List MemmapEntry → Result (List MemmapEntry)
  claim_loop zero i m = out_of_fuel
  claim_loop (suc fuel) i m = elim (get_elem? m i) [
    | none ↦ ok m
    | some e ↦ elim (claim_step m i e) [
      | again m' ↦ claim_loop fuel i m'
      | advance m' ↦ claim_loop fuel (suc i) m'
      | exhausted ↦ panic
    ]
  ]

-- The array after the last entry has been written.
unfoldable pub push_entry : ℕ → List MemmapEntry → MemmapEntry → Result (List MemmapEntry)
push_entry max_entries m e = if leb max_entries (length m) then panic else ok (m ++ (e ∷ []))

unfoldable pub new_entry :
    (max_entries : ℕ) → List MemmapEntry → (base length type : ℕ) → Result (List MemmapEntry)
unfolding claim_loop claim_step push_entry remove
new_entry max_entries m base len type = elim (checked_add base len) [
  | none ↦ panic
  | some top ↦ claim_loop max_entries base top (2 * length m + 1) 0 m >>= λ m'.
      push_entry max_entries m' (record { base = base; length = len; type = type })
]
