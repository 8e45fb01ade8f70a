-- ===== src/Memmap/Claim/Cases.antt =====
-- One round of the loop of pmm_new_entry(): its cases, and what each does to the entry.
use limine_eucleia.Prelude.{
  ℕ, ◌+◌, ◌≤◌, ◌<◌, ◌≡◌, ◌⊎◌, inl, inr, List, [], ◌∷◌, ◌++◌, ◌&&◌, arith, length, set, ltb, leb,
  Bool-cases,
}
use limine_eucleia.Word.{word, add64, sub64}
use limine_eucleia.Memmap.Entry.{MemmapEntry, remove, cover}
use limine_eucleia.Memmap.Claim.Step.{Move, again, advance, exhausted, claim_entry}

abbrev pub Outside : (base top a : ℕ) → Type 0
Outside base top a = (a < base) ⊎ (top ≤ a)

module _ (base top : ℕ) (e : MemmapEntry) where
  abbrev pub entry_top : ℕ
  entry_top = e.base + e.length

  -- What is left of the entry below the range, above it, and of one whose lower part is taken.
  abbrev pub low : MemmapEntry
  low = record e { length = sub64 e.length (sub64 entry_top base) }

  abbrev pub high : MemmapEntry
  high = record { base = top; length = sub64 entry_top top; type = e.type }

  abbrev pub shaved : MemmapEntry
  shaved = record e {
    base = add64 e.base (sub64 top e.base);
    length = sub64 e.length (sub64 top e.base);
  }

  module _ (ends : entry_top < word) where
    pub cover-shaved :
        (a : ℕ)
        → base ≤ e.base
        → top < entry_top
        → e.base < top
        → Outside base top a
        → cover a shaved ≡ cover a e
    cover-shaved a p q r o = ground arith

    pub cover-low_high :
        (a : ℕ)
        → base ≤ top
        → e.base < base
        → top < entry_top
        → Outside base top a
        → cover a low + cover a high ≡ cover a e
    cover-low_high a p q r o = ground arith

    pub cover-low :
        (a : ℕ)
        → e.base < base
        → base < entry_top
        → entry_top ≤ top
        → Outside base top a
        → cover a low ≡ cover a e
    cover-low a p q r o = ground arith

    pub cover-low_inside : (a : ℕ) → e.base < base → base < entry_top → base ≤ a → cover a low ≡ 0
    cover-low_inside a p q r = ground arith

    pub cover-shaved_inside :
        (a : ℕ) → top < entry_top → e.base < top → a < top → cover a shaved ≡ 0
    cover-shaved_inside a p q r = ground arith

  pub cover-high_inside : (a : ℕ) → a < top → cover a high ≡ 0
  cover-high_inside a p = ground arith

  pub cover-full : (a : ℕ) → base ≤ e.base → entry_top ≤ top → Outside base top a → cover a e ≡ 0
  cover-full a p q o = ground arith

  module _ (max_entries : ℕ) (m : List MemmapEntry) (i : ℕ) where
    -- The branches of the body, each with what its tests tell.
    pub data Case : Move → Type 0 where
      full : base ≤ e.base → entry_top ≤ top → Case (again (remove m i))
      bottom : base ≤ e.base → top < entry_top → e.base < top → Case (advance (set m i shaved))
      upper : e.base < base → base < entry_top → entry_top ≤ top → Case (advance (set m i low))
      nested :
          e.base < base
          → top < entry_top
          → length m < max_entries
          → Case (advance (set m i low ++ (high ∷ [])))
      no_room : e.base < base → top < entry_top → max_entries ≤ length m → Case exhausted
      apart : (entry_top ≤ base) ⊎ (top ≤ e.base) → Case (advance m)

    pub claim_entry-Case : base ≤ top → Case (claim_entry max_entries base top m i e entry_top)
    unfolding claim_entry
    claim_entry-Case o = elim (Bool-cases (leb base e.base && leb entry_top top)) [
      | inl c ↦ rw c (full (ground arith) (ground arith))
      | inr c ↦ rw c (elim (Bool-cases (leb base e.base && (ltb top entry_top && ltb e.base top))) [
        | inl d ↦ rw d (bottom (ground arith) (ground arith) (ground arith))
        | inr d ↦
            rw d (elim (Bool-cases (ltb e.base base && (ltb base entry_top && leb entry_top top))) [
              | inl g ↦ rw g (upper (ground arith) (ground arith) (ground arith))
              | inr g ↦ rw g (elim (Bool-cases (ltb e.base base && ltb top entry_top)) [
                | inl h ↦ rw h (elim (Bool-cases (leb max_entries (length m))) [
                  | inl full_map ↦
                      rw full_map (no_room (ground arith) (ground arith) (ground arith))
                  | inr room ↦ rw room (nested (ground arith) (ground arith) (ground arith))
                ])
                | inr h ↦ rw h (apart (ground arith))
              ])
            ])
      ])
    ]
