-- ===== src/Memmap/Sanitise/Clipped.antt =====
-- The second pass of pmm_sanitise_entries(): what it leaves of a map.
use limine_eucleia.Prelude.{
  ℕ, zero, suc, ◌+◌, ◌-◌, ◌≤◌, ◌<◌, ◌≡◌, ◌⊎◌, refl, ◌∙◌, inl, inr, List, [], ◌∷◌, Bool, not, ◌&&◌,
  true, none, some, arith, length, get_elem?, set, take, sum_by, sum_by-set, sum_by-take-suc-set,
  take-all, get_elem?-none, get_elem?-lt, ◌==◌, ltb, Option-cases, Returns, Returns_mono,
  sum_by_mono, if◌then◌else◌, length-set,
}
use limine_eucleia.Memmap.Entry.{MemmapEntry, usable, remove, cover, hit, hits, covers, overflows}
use limine_eucleia.Memmap.Removal.{sum_by-remove, take-remove, length-remove}
use limine_eucleia.Memmap.Sanitise.Clip.{clip_entry, clip_loop, clip}

abbrev pub empties : MemmapEntry → ℕ
empties e = if e.length == 0 then 1 else 0

module _ (keep_first_page : Bool) where
  -- The share of an address that the pass takes from usable memory.
  abbrev pub clipped : (a t : ℕ) → ℕ → ℕ
  clipped a t n = if t == usable && (not keep_first_page && ltb a 0x1000) then 0 else n

  abbrev pub kept_hit : (a t : ℕ) → MemmapEntry → ℕ
  kept_hit a t e = clipped a t (hit a t e)

  kept_hit-sum :
      (a t : ℕ) (m : List MemmapEntry) → sum_by (kept_hit a t) m ≡ clipped a t (hits m a t)
  kept_hit-sum a t [] = ground arith
  kept_hit-sum a t (e ∷ m) = ground (arith, kept_hit-sum a t m)

  abbrev pub kept_cover : ℕ → MemmapEntry → ℕ
  kept_cover a e =
      if e.type == usable && (not keep_first_page && ltb a 0x1000) then 0 else cover a e

  -- A measure `f` of the entries afterwards is the measure `g` of those before.
  pub record Clips (f g : MemmapEntry → ℕ) : Type 0 where
    gone : (e : MemmapEntry) → clip_entry keep_first_page e ≡ none → g e ≡ 0
    exact : (e e' : MemmapEntry) → clip_entry keep_first_page e ≡ some e' → f e' ≡ g e
    again : (e e' : MemmapEntry) → clip_entry keep_first_page e ≡ some e' → g e' ≡ g e

  hit-Clips : (a t : ℕ) → Clips (hit a t) (kept_hit a t)
  unfolding clip_entry
  hit-Clips a t = record {
    gone = λ e h. ground arith;
    exact = λ e e' h. ground arith;
    again = λ e e' h. ground arith;
  }

  cover-Clips : (a : ℕ) → Clips (cover a) (kept_cover a)
  unfolding clip_entry
  cover-Clips a = record {
    gone = λ e h. ground arith;
    exact = λ e e' h. ground arith;
    again = λ e e' h. ground arith;
  }

  empties-Clips : Clips empties (λ e. 0)
  unfolding clip_entry
  empties-Clips = record {
    gone = λ e h. refl;
    exact = λ e e' h. ground arith;
    again = λ e e' h. refl;
  }

  clip_ends :
      (e e' : MemmapEntry) → clip_entry keep_first_page e ≡ some e' → overflows e' ≤ overflows e
  unfolding clip_entry
  clip_ends e e' h = ground arith

  -- What the rounds from `i` on come to.
  abbrev After : ℕ → List MemmapEntry → List MemmapEntry → Type 0
  After i m m' =
      ((f g : MemmapEntry → ℕ)
        → Clips f g
        → sum_by f (take i m) ≡ sum_by g (take i m)
        → sum_by f m' ≡ sum_by g m)
      × (sum_by overflows m' ≤ sum_by overflows m)

  clip_loop-Turns :
      (fuel i : ℕ) (m : List MemmapEntry)
      → length m - i < fuel
      → Returns (clip_loop keep_first_page fuel i m) (After i m)
  unfolding clip_loop
  clip_loop-Turns zero i m enough = absurd (omega arith)
  clip_loop-Turns (suc fuel) i m enough = elim (Option-cases (get_elem? m i)) [
    | inl h ↦
        let all : take i m ≡ m = take-all m i (get_elem?-none m i h) in
        rw (h, clip_loop) (λ f g c p. rw all at p, omega arith)
    | inr (e, h) ↦ elim (Option-cases (clip_entry keep_first_page e)) [
      | inl q ↦
          rw (h, q, clip_loop)
            (Returns_mono _ (After i (remove m i)) (After i m)
              (λ m' p. (
                λ f g c s. omega (
                  arith,
                  p.0 f g c (rw (take-remove m i h) s),
                  sum_by-remove g m i h,
                  c.gone e q,
                ),
                omega (arith, p.1, sum_by-remove overflows m i h),
              ))
              (clip_loop-Turns fuel i (remove m i)
                (omega (arith, length-remove m i h, get_elem?-lt m i h))))
      | inr (e', q) ↦
          rw (h, q, clip_loop)
            (Returns_mono _ (After (suc i) (set m i e')) (After i m)
              (λ m' p. (
                λ f g c s. omega (
                  arith,
                  p.0 f g c (
                      omega (
                        arith,
                        sum_by-take-suc-set f m i e' h,
                        sum_by-take-suc-set g m i e' h,
                        c.exact e e' q,
                        c.again e e' q,
                        s,
                      )),
                  sum_by-set g m i e' h,
                  c.again e e' q,
                ),
                omega (arith, p.1, sum_by-set overflows m i e' h, clip_ends e e' q),
              ))
              (clip_loop-Turns fuel (suc i) (set m i e')
                (omega (arith, length-set m i e', get_elem?-lt m i h))))
    ]
  ]

  kept_cover-le : (a : ℕ) (m : List MemmapEntry) → sum_by (kept_cover a) m ≤ covers m a
  kept_cover-le a m = sum_by_mono (kept_cover a) (cover a) m (λ e. ground arith)

  kept_cover-eq :
      (a : ℕ)
      → (keep_first_page ≡ true) ⊎ (0x1000 ≤ a)
      → (m : List MemmapEntry) → sum_by (kept_cover a) m ≡ covers m a
  kept_cover-eq a h [] = refl
  kept_cover-eq a h (e ∷ m) = ground (arith, kept_cover-eq a h m)

  -- What the second pass leaves: every type holds what it held, but for usable memory in a first
  -- page that is not kept; no entry is empty.
  pub record Clipped (m m' : List MemmapEntry) : Type 0 where
    pub exact_hits : (a t : ℕ) → hits m' a t ≡ clipped a t (hits m a t)
    pub covers_le : (a : ℕ) → covers m' a ≤ covers m a
    pub covers_eq : (a : ℕ) → (keep_first_page ≡ true) ⊎ (0x1000 ≤ a) → covers m' a ≡ covers m a
    pub none_empty : sum_by empties m' ≡ 0
    pub overflows_le : sum_by overflows m' ≤ sum_by overflows m

  zeros : (m : List MemmapEntry) → sum_by (λ e. 0) m ≡ 0
  zeros [] = refl
  zeros (e ∷ m) = omega (arith, zeros m)

  -- The second pass of pmm_sanitise_entries() returns on every map: each address is in as many
  -- entries of each type as before, but in no usable one where it lies in a first page that is
  -- not kept; outside of such a page it is in as many entries; no entry is empty, and no more
  -- overflow than before.
  pub clip-Clipped : (m : List MemmapEntry) → Returns (clip keep_first_page m) (Clipped m)
  unfolding clip
  clip-Clipped m =
      Returns_mono _ (After 0 m) (Clipped m)
        (λ m' p. record {
          exact_hits = λ a t. p.0 _ _ (hit-Clips a t) refl ∙ kept_hit-sum a t m;
          covers_le = λ a. omega (arith, p.0 _ _ (cover-Clips a) refl, kept_cover-le a m);
          covers_eq = λ a h. p.0 _ _ (cover-Clips a) refl ∙ kept_cover-eq a h m;
          none_empty = p.0 _ _ empties-Clips refl ∙ zeros m;
          overflows_le = p.1;
        })
        (clip_loop-Turns (length m + 1) 0 m (omega arith))
