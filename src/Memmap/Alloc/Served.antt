-- ===== src/Memmap/Alloc/Served.antt =====
-- What ext_mem_alloc_type_aligned_mode() promises of the memory that it returns.
use limine_eucleia.Prelude.{
  ℕ, zero, suc, ◌+◌, ◌-◌, ◌*◌, ◌/◌, ◌%◌, ◌≤◌, ◌<◌, ◌≡◌, ◌≢◌, ◌∙◌, refl, Bool, true, false, Option,
  none, some, List, arith, length, get_elem?, sum_by, sum_by_mono, Ends, Ends-bind, Ends_mono,
  Result, panic, inl, inr, Bool-cases, ltb→lt, ◌==◌, ltb, leb, if◌then◌else◌,
}
use native.Mathlib.Decide.{ℕ_discrete}
use native.Mathlib.Nat.{div-mul-le_self, div-add-mod', mod-lt, mul-mod_left, mod-eq_of_lt}
use limine_eucleia.Word.{word, sub64, align_down}
use limine_eucleia.Memmap.Entry.{MemmapEntry, usable, hit, cover, hit-le-cover, hits, overflows}
use limine_eucleia.Memmap.Claim.Total.{inside}
use limine_eucleia.Memmap.Sanitise.Passes.{sanitise}
use limine_eucleia.Memmap.Sanitise.Sane.{Sane, sanitise-Sane}
use limine_eucleia.Memmap.Alloc.Range.{Pmm, alloc_range, check_type, with_memmap, at_least_one}
use limine_eucleia.Memmap.Alloc.Claims.{Allocated, Outcome, alloc_range-Outcome, check_type-of_hits}
use limine_eucleia.Memmap.Alloc.High.{
  Site, four_gib, site_below, site_in, find_site, reserve, rounded, place, ext_alloc_mode,
}

align_down-eq : (x al : ℕ) → x < word → align_down x al ≡ x / al * al
unfolding align_down
align_down-eq x al w = mod-eq_of_lt (omega (arith, div-mul-le_self x al))

align_down-aligned : (x al : ℕ) → x < word → align_down x al % al ≡ 0
align_down-aligned x al w = rw (align_down-eq x al w) (mul-mod_left (x / al) al)

align_down-le : (x al : ℕ) → x < word → align_down x al ≤ x
align_down-le x al w = rw (align_down-eq x al w) (div-mul-le_self x al)

module _ (limit count alignment : ℕ) where
  -- A site that the search finds: aligned, with room for the count, and below the limit.
  pub record Fitting (s : Site) : Type 0 where
    pub aligned : s.base % alignment ≡ 0
    pub room : count ≤ s.length
    pub below : s.base + s.length ≤ limit

  abbrev pub Fits : Option Site → Type 0
  Fits none = Unit
  Fits (some s) = Fitting s

  site_below-Fits :
      (entry_base entry_top : ℕ)
      → entry_base ≤ entry_top
      → entry_top ≤ limit
      → entry_top < word
      → Fits (site_below limit count alignment entry_base entry_top)
  unfolding site_below
  site_below-Fits entry_base entry_top o l w =
      elim (Bool-cases (ltb (sub64 entry_top entry_base) count)) [
        | inl c ↦ rw c tt
        | inr c ↦
            rw c
              (elim (Bool-cases (ltb (align_down (sub64 entry_top count) alignment) entry_base)) [
                | inl d ↦ rw d tt
                | inr d ↦ rw d (
                    let fits : count ≤ entry_top = ground arith in
                    let start : sub64 entry_top count ≡ entry_top - count = ground arith in
                    let low = align_down-le (sub64 entry_top count) alignment (ground arith) in
                    record {
                      aligned = align_down-aligned (sub64 entry_top count) alignment (ground arith);
                      room = ground arith;
                      below = ground arith;
                    })
              ])
      ]

  site_in-Fits : (e : MemmapEntry) → Fits (site_in limit count alignment e)
  unfolding site_in
  site_in-Fits e = elim (Bool-cases (e.type == usable)) [
    | inr c ↦ rw c tt
    | inl c ↦ rw c (elim (Bool-cases (ltb (e.base + e.length) word)) [
      | inr w ↦ rw w tt
      | inl w ↦ rw w (elim (Bool-cases (ltb limit (e.base + e.length))) [
        | inr d ↦
            rw d (
              site_below-Fits e.base (e.base + e.length) (omega arith) (ground arith)
                (ground arith))
        | inl d ↦ rw d (elim (Bool-cases (leb limit e.base)) [
          | inl f ↦ rw f tt
          | inr f ↦ rw f (site_below-Fits e.base limit (ground arith) (omega arith) (ground arith))
        ])
      ])
    ])
  ]

  first_of : (o p : Option Site) → Fits o → Fits p → Fits (elim o [ some s ↦ some s | none ↦ p ])
  first_of none p h g = g
  first_of (some s) p h g = h

  site_of :
      (o : Option MemmapEntry) (p : Option Site)
      → Fits p
      → Fits (elim o [
        | none ↦ p
        | some e ↦ elim (site_in limit count alignment e) [ some s ↦ some s | none ↦ p ]
      ])
  site_of none p g = g
  site_of (some e) p g = first_of (site_in limit count alignment e) p (site_in-Fits e) g

  pub find_site-Fits : (i : ℕ) (m : List MemmapEntry) → Fits (find_site limit count alignment i m)
  unfolding find_site
  find_site-Fits zero m = tt
  find_site-Fits (suc i) m =
      site_of (get_elem? m i) (find_site limit count alignment i m) (find_site-Fits i m)

-- The memory at `r.0`, after the call on the state `p`.
pub record Served (p : Pmm) (count type alignment limit : ℕ) (r : ℕ × Pmm) : Type 0 where
  pub aligned : r.0 % alignment ≡ 0
  pub len : ℕ
  pub enough : count ≤ len
  pub below : r.0 + len ≤ limit
  pub was_usable : (a : ℕ) → inside r.0 (r.0 + len) a ≡ true → 0 < hits p.memmap a usable
  pub given : (a : ℕ) → inside r.0 (r.0 + len) a ≡ true → check_type r.1.memmap a ≡ type
  pub elsewhere :
      (a t : ℕ)
      → inside r.0 (r.0 + len) a ≡ false
      → t ≢ usable
      → hits r.1.memmap a t ≡ hits p.memmap a t
  pub ends : sum_by overflows r.1.memmap ≡ 0

module _ (p : Pmm) (count type alignment limit : ℕ) (fine : sum_by overflows p.memmap ≡ 0)
    (typed : type ≢ usable) (some_count : count ≢ 0) where
  module _ (s : Site) (f : Fitting limit count alignment s) where
    after :
        (r : Bool × List MemmapEntry)
        → Outcome p s.base s.length type fine usable true false r
        → (m : List MemmapEntry) → Sane p.keep_first_page false r.1 m
        → Served p count type alignment limit (s.base, with_memmap p m)
    after r o m g = record {
      aligned = f.aligned;
      len = s.length;
      enough = f.room;
      below = f.below;
      was_usable = λ a i. o.3 (o.0 refl) refl (ground arith) a i;
      given = λ a i.
          check_type-of_hits m a type
            (λ u ne. elim (ℕ_discrete u usable) [
              | yes q ↦ rw q (omega (arith, g.usable_le a, rw q at (al.none_else a u i ne)))
              | no q ↦ g.others a u q ∙ al.none_else a u i ne
            ])
            (omega (
              arith,
              sum_by_mono (hit a type) (cover a) m (hit-le-cover a type),
              g.others a type typed,
              al.typed a i typed,
            ));
      elsewhere = λ a t i ne. g.others a t ne ∙ al.elsewhere a t i ne;
      ends = omega (arith, g.overflows_le, al.ends);
    }
      where
        al : Allocated p s.base s.length type r.1
        al = o.2 (o.0 refl)

    reserve-Served : Ends (reserve p type s) (Served p count type alignment limit)
    unfolding reserve
    reserve-Served =
        Ends-bind (alloc_range p s.base s.length type usable true false false) _
          (Outcome p s.base s.length type fine usable true false)
          (Served p count type alignment limit)
          (alloc_range-Outcome p s.base s.length type fine usable true false
            (omega (arith, f.room)))
          (λ r o.
            Ends-bind (sanitise p.max_entries p.keep_first_page false r.1) _
              (Sane p.keep_first_page false r.1) (Served p count type alignment limit)
              (sanitise-Sane p.keep_first_page false p.max_entries r.1 ((o.2 (o.0 refl)).ends))
              (λ m g. after r o m g))

  pub reserve_found :
      (o : Option Site)
      → Fits limit count alignment o
      → (rest : Result (ℕ × Pmm)) → Ends rest (Served p count type alignment limit)
      → Ends
          (elim o [ some s ↦ reserve p type s | none ↦ rest ])
          (Served p count type alignment limit)
  reserve_found none h rest g = g
  reserve_found (some s) h rest g = reserve-Served s h

Ends_unless {ℓ} :
    {A : Type ℓ} (b : Bool) (x : Result A) (P : A → Type 0)
    → Ends x P
    → Ends (if b then panic else x) P
Ends_unless true x P h = tt
Ends_unless false x P h = h

relax :
    (p : Pmm) (small large type alignment low high : ℕ) (r : ℕ × Pmm)
    → small ≤ large
    → low ≤ high
    → Served p large type alignment low r
    → Served p small type alignment high r
relax p small large type alignment low high r o l h = record {
  aligned = h.aligned;
  len = h.len;
  enough = omega (arith, h.enough);
  below = omega (arith, h.below);
  was_usable = h.was_usable;
  given = h.given;
  elsewhere = h.elsewhere;
  ends = h.ends;
}

module _ (p : Pmm) (type alignment : ℕ) (fine : sum_by overflows p.memmap ≡ 0)
    (typed : type ≢ usable) (some_alignment : 0 < alignment) (fits : alignment < word) where
  abbrev AtLeast : ℕ → Option ℕ → Type 0
  AtLeast c none = Unit
  AtLeast c (some s) = c ≤ s

  align_down-enough :
      (c : ℕ) → c + sub64 alignment 1 < word → c ≤ align_down (c + sub64 alignment 1) alignment
  align_down-enough c w = rw (align_down-eq (c + sub64 alignment 1) alignment w) (
      let parts = div-add-mod' (c + sub64 alignment 1) alignment in
      let part = mod-lt (c + sub64 alignment 1) some_alignment in
      let less : sub64 alignment 1 ≡ alignment - 1 = ground arith in
      omega (arith, parts, part, less))

  rounded-AtLeast : (count : ℕ) → AtLeast (at_least_one p count) (rounded p count alignment)
  unfolding rounded
  rounded-AtLeast count = elim (Bool-cases (ltb (at_least_one p count + sub64 alignment 1) word)) [
    | inl c ↦
        rw (c, AtLeast)
          (align_down-enough (at_least_one p count)
            (ltb→lt (at_least_one p count + sub64 alignment 1) word c))
    | inr c ↦ rw (c, AtLeast) tt
  ]

  abbrev limit_of : Bool → ℕ
  limit_of allow_high_allocs = if allow_high_allocs then word - 1 else four_gib

  place-Served :
      (size : ℕ) (allow_high_allocs : Bool)
      → size ≢ 0
      → Ends
          (place p size type alignment allow_high_allocs)
          (Served p size type alignment (limit_of allow_high_allocs))
  unfolding place
  place-Served size false n =
      reserve_found p size type alignment four_gib fine typed n
        (find_site four_gib size alignment (length p.memmap) p.memmap)
        (find_site-Fits four_gib size alignment (length p.memmap) p.memmap) panic tt
  place-Served size true n =
      reserve_found p size type alignment (word - 1) fine typed n
        (find_site four_gib size alignment (length p.memmap) p.memmap)
        (widened (find_site four_gib size alignment (length p.memmap) p.memmap)
          (find_site-Fits four_gib size alignment (length p.memmap) p.memmap))
        _
        (reserve_found p size type alignment (word - 1) fine typed n
          (find_site (word - 1) size alignment (length p.memmap) p.memmap)
          (find_site-Fits (word - 1) size alignment (length p.memmap) p.memmap) panic tt)
    where
      widened :
          (o : Option Site) → Fits four_gib size alignment o → Fits (word - 1) size alignment o
      widened none h = tt
      widened (some s) h = record {
        aligned = h.aligned;
        room = h.room;
        below = omega (arith, h.below);
      }

  -- On a state whose map has no overflowing entry, for a type other than usable and an alignment
  -- above 0 and below 2^64, ext_mem_alloc_type_aligned_mode() comes to an end, by a panic or
  -- with an address that is a multiple of the alignment and begins a range of at least the
  -- (nonzero) count, below 4 GiB unless high allocations are allowed; every address of the range
  -- was in a usable entry and afterwards has the type asked for by pmm_check_type(); outside of
  -- it memory that is not usable is the same, and no entry overflows.
  pub ext_alloc_mode-Served :
      (count : ℕ) (allow_high_allocs : Bool)
      → Ends
          (ext_alloc_mode p count type alignment allow_high_allocs)
          (Served p (at_least_one p count) type alignment (limit_of allow_high_allocs))
  unfolding ext_alloc_mode
  ext_alloc_mode-Served count allow_high_allocs =
      sized (rounded p count alignment) (rounded-AtLeast count)
    where
      Goal : ℕ × Pmm → Type 0
      Goal = Served p (at_least_one p count) type alignment (limit_of allow_high_allocs)

      sized :
          (o : Option ℕ)
          → AtLeast (at_least_one p count) o
          → Ends
              (elim o [
                | none ↦ panic
                | some size ↦
                    if p.allocations_disallowed
                    then panic
                    else place p size type alignment allow_high_allocs
              ])
              Goal
      sized none h = tt
      sized (some size) h =
          Ends_unless p.allocations_disallowed (place p size type alignment allow_high_allocs) Goal
            (Ends_mono (place p size type alignment allow_high_allocs)
              (Served p size type alignment (limit_of allow_high_allocs)) Goal
              (λ r.
                relax p (at_least_one p count) size type alignment (limit_of allow_high_allocs)
                  (limit_of allow_high_allocs) r h (omega arith))
              (place-Served size allow_high_allocs (ground arith)))
