-- ===== src/Memmap/Sanitise/Scanned.antt =====
-- The loop over `j` in the first pass of pmm_sanitise_entries(): its rounds by cases, and the loop by
-- induction.
use limine_eucleia.Prelude.{
  ℕ, zero, suc, ◌+◌, ◌-◌, ◌≤◌, ◌<◌, ◌≡◌, ◌≢◌, ◌⊎◌, refl, ◌∙◌, inl, inr, List, [], ◌∷◌, ◌++◌, some,
  none, Bool, ◌&&◌, true, false, arith, ltb, leb, ◌==◌, length, get_elem?, set, sum_by,
  sum_by-take-suc, ltb→lt, Bool-cases, ==_iff, Option-cases, take-all, get_elem?-none, get_elem?-lt,
  Ends, Ends_mono,
}
use mathlib.Core.List.{append-nil}
use limine_eucleia.Word.{word}
use limine_eucleia.Memmap.Entry.{MemmapEntry, usable, cover, covers}
use limine_eucleia.Memmap.Sanitise.Overlap.{
  Scan, move_on, leave, delete, no_room, splits, cut, fragment, scan_overlap, scan_entry, scan_step,
  scan_loop, size,
}
use limine_eucleia.Memmap.Sanitise.Cut.{
  cut_type, cut_narrow, cut_ends, split-le, split-held, split-apart, split-size, cut-size, cut-le,
  cut-held, cut-apart,
}
use limine_eucleia.Memmap.Sanitise.Scan.{
  Kept-refl, Kept-trans, Alone, Holds, Fits, replaced_at, replace-Holds, replace-Alone,
}

-- The entry at `i` covers nothing.
abbrev pub Gone : ℕ → List MemmapEntry → Type 0
Gone i m = (a : ℕ) (e : MemmapEntry) → get_elem? m i ≡ some e → cover a e ≡ 0

abbrev pub ScanNext : (i j : ℕ) → List MemmapEntry → Scan → Type 0
ScanNext i j m (move_on m') = Holds i m m' × (Alone i j m → Alone i (suc j) m')
ScanNext i j m (leave m') = Holds i m m' × Gone i m'
ScanNext i j m delete = Gone i m
ScanNext i j m no_room = Unit

module _ (m : List MemmapEntry) (i : ℕ) (e : MemmapEntry) (at : get_elem? m i ≡ some e)
    (e_usable : e.type ≡ usable) where
  unchanged : Holds i m m
  unchanged = record { kept = Kept-refl m; prefix = refl; entry = e; at = at; is_usable = e_usable }

  self-Alone : Alone i i m → Alone i (suc i) m
  self-Alone alone a u at' c = ground (arith, alone a u at' c, sum_by-take-suc (cover a) m i at')

  module _ (j : ℕ) (f : MemmapEntry) (at_j : get_elem? m j ≡ some f) where
    clear-Alone : ((a : ℕ) → cover a f ≡ 0) → Alone i j m → Alone i (suc j) m
    clear-Alone none_there alone a u at' c =
        ground (arith, alone a u at' c, none_there a, sum_by-take-suc (cover a) m j at_j)

    module _ (ne : i ≢ j) (e_ends : e.base + e.length < word) (f_ends : f.base + f.length < word)
        (some_f : 0 < f.length) where
      abbrev top : ℕ
      top = e.base + e.length

      abbrev res_top : ℕ
      res_top = f.base + f.length

      abbrev emptied : MemmapEntry
      emptied = record e { base = top; length = 0 }

      contained :
          f.base ≤ e.base → top ≤ res_top → Holds i m (set m i emptied) × Gone i (set m i emptied)
      contained p q = (
        rw append-nil at (replace-Holds m i e emptied at e_usable [] j f at_j ne fits),
        λ a u at'.
            let same : u ≡ emptied =
              cc (rw append-nil at (replaced_at m i e emptied at e_usable [] j f at_j ne fits)) in
            rw same (ground arith),
      )
        where
          fits : Fits e emptied f []
          fits = record {
            v_usable = e_usable;
            added_others = λ a t h. refl;
            added_usable = λ a. refl;
            within = λ a. ground arith;
            rest = λ a. ground arith;
            sizes = omega arith;
            narrow = ground arith;
            ends = ground arith;
          }

      trimmed :
          splits e f top res_top ≡ false
          → (leb f.base e.base && leb top res_top) ≡ false
          → Holds i m (set m i (cut e f top res_top))
            × (Alone i j m → Alone i (suc j) (set m i (cut e f top res_top)))
      unfolding cut
      trimmed sp part = (
        rw append-nil at
            (replace-Holds m i e (cut e f top res_top) at e_usable [] j f at_j ne fits),
        λ alone. rw append-nil at (
            replace-Alone m i e (cut e f top res_top) at e_usable [] j f at_j ne fits
              (cut-apart e f e_ends f_ends sp part some_f) alone),
      )
        where
          fits : Fits e (cut e f top res_top) f []
          fits = record {
            v_usable = cut_type e f e_ends f_ends ∙ e_usable;
            added_others = λ a t h. refl;
            added_usable = λ a. refl;
            within = λ a. omega (arith, cut-le e f e_ends f_ends sp part some_f a);
            rest = λ a. omega (arith, cut-held e f e_ends f_ends sp part some_f a);
            sizes = omega (arith, cut-size e f e_ends f_ends sp part some_f);
            narrow = omega (arith, cut_narrow e f e_ends f_ends);
            ends = omega (arith, cut_ends e f e_ends f_ends);
          }

      split-Fits :
          splits e f top res_top ≡ true
          → Fits e (cut e f top res_top) f (fragment e f top res_top ∷ [])
      split-Fits sp = record {
        v_usable = cut_type e f e_ends f_ends ∙ e_usable;
        added_others = λ a t h. ground arith;
        added_usable = λ a. ground arith;
        within = λ a. omega (arith, split-le e f e_ends f_ends sp some_f a);
        rest = λ a. omega (arith, split-held e f e_ends f_ends sp some_f a);
        sizes = omega (arith, split-size e f e_ends f_ends sp some_f);
        narrow = ground (arith, cut_narrow e f e_ends f_ends);
        ends = ground (arith, cut_ends e f e_ends f_ends);
      }

      split :
          splits e f top res_top ≡ true
          → let m' = set m i (cut e f top res_top) ++ (fragment e f top res_top ∷ []) in
            Holds i m m' × (Alone i j m → Alone i (suc j) m')
      split sp = (
        replace-Holds m i e (cut e f top res_top) at e_usable _ j f at_j ne (split-Fits sp),
        replace-Alone m i e (cut e f top res_top) at e_usable _ j f at_j ne (split-Fits sp)
            (split-apart e f e_ends f_ends sp some_f),
      )

      module _ (max_entries : ℕ) where
        overlap-Next : ScanNext i j m (scan_overlap max_entries m i e f top res_top)
        unfolding scan_overlap
        overlap-Next = elim (Bool-cases (leb f.base e.base && leb top res_top)) [
          | inl c ↦ rw (c, scan_overlap) (contained (ground arith) (ground arith))
          | inr c ↦
              rw (c, scan_overlap)
                (elim (Bool-cases (splits e f top res_top)) [
                  | inr d ↦ rw d (trimmed d c)
                  | inl d ↦ rw d (elim (Bool-cases (leb max_entries (length m))) [
                    | inl full ↦ rw full tt
                    | inr room ↦ rw room (split d)
                  ])
                ])
        ]

    entry-Next : (max_entries : ℕ) → ScanNext i j m (scan_entry max_entries m i e j f)
    unfolding scan_entry
    entry-Next max_entries = elim (Bool-cases (j == i)) [
      | inl c ↦
          let same : j ≡ i = (==_iff j i).0 c in
          rw (c, scan_entry) (rw same (unchanged, self-Alone))
      | inr c ↦
          rw (c, scan_entry)
            (elim (Bool-cases (ltb (e.base + e.length) word)) [
              | inr wide ↦ rw wide (λ a u at'. gone a u at' (ground arith))
              | inl v ↦ rw v (elim (Bool-cases (ltb (f.base + f.length) word)) [
                | inr wide ↦ rw wide (unchanged, clear-Alone (λ a. ground arith))
                | inl w ↦ rw w (elim (Bool-cases (f.length == 0)) [
                  | inl empty ↦ rw empty (unchanged, clear-Alone (λ a. ground arith))
                  | inr some_f ↦ rw some_f (
                      overlap-Next (ground arith) (ltb→lt _ _ v) (ltb→lt _ _ w) (ground arith)
                        max_entries)
                ])
              ])
            ])
    ]
      where
        gone :
            (a : ℕ) (u : MemmapEntry)
            → get_elem? m i ≡ some u
            → word ≤ e.base + e.length
            → cover a u ≡ 0
        gone a u at' wide = let same : u ≡ e = cc in rw same (ground arith)

    step-Next : (max_entries : ℕ) → ScanNext i j m (scan_step max_entries m i j f)
    unfolding scan_step
    step-Next max_entries = rw (at, scan_step) (entry-Next max_entries)

Scan-cases :
    (s : Scan)
    → ((m : List MemmapEntry) × (s ≡ move_on m))
      ⊎ (((m : List MemmapEntry) × (s ≡ leave m)) ⊎ ((s ≡ delete) ⊎ (s ≡ no_room)))
Scan-cases (move_on m) = inl (m, refl)
Scan-cases (leave m) = inr (inl (m, refl))
Scan-cases delete = inr (inr (inl refl))
Scan-cases no_room = inr (inr (inr refl))

pub length-le-size : (m : List MemmapEntry) → length m ≤ sum_by size m
length-le-size [] = omega arith
length-le-size (e ∷ m) = omega (arith, length-le-size m)

Holds_trans :
    (i : ℕ) (m m' : List MemmapEntry)
    → Holds i m m'
    → (m'' : List MemmapEntry) → Holds i m' m''
    → Holds i m m''
Holds_trans i m m' h m'' k = record {
  kept = Kept-trans m m' m'' h.kept k.kept;
  prefix = k.prefix ∙ h.prefix;
  entry = k.entry;
  at = k.at;
  is_usable = k.is_usable;
}

-- What the loop leaves: the entry at `i` meets no other one, and covers nothing if it is to go.
abbrev pub Scanned : (i : ℕ) (m : List MemmapEntry) → List MemmapEntry × Bool → Type 0
Scanned i m (m', flag) =
    Holds i m m'
    × ((a : ℕ) (e : MemmapEntry) → get_elem? m' i ≡ some e → cover a e ≡ 1 → covers m' a ≤ 1)
    × (flag ≡ true → Gone i m')

module _ (max_entries i : ℕ) where
  pub scan_loop-Scanned :
      (fuel j : ℕ) (m : List MemmapEntry) (e : MemmapEntry)
      → get_elem? m i ≡ some e
      → e.type ≡ usable
      → sum_by size m - j < fuel
      → Alone i j m
      → Ends (scan_loop max_entries i fuel j m) (Scanned i m)
  unfolding scan_loop
  scan_loop-Scanned zero j m e at u enough alone = absurd (omega arith)
  scan_loop-Scanned (suc fuel) j m e at u enough alone = elim (Option-cases (get_elem? m j)) [
    | inl h ↦ rw (h, scan_loop) (unchanged m i e at u, ended h, λ x. cc)
    | inr (f, h) ↦
        let next = step-Next m i e at u j f h max_entries in
        elim (Scan-cases (scan_step max_entries m i j f)) [
          | inl (m', q) ↦
              let (holds, later) = advanced m' (rw q at next) in
              rw (h, q, scan_loop)
                (Ends_mono _ (Scanned i m') (Scanned i m)
                  (λ r p. (Holds_trans i m m' holds r.0 p.0, p.1, p.2))
                  (scan_loop-Scanned fuel (suc j) m' holds.entry holds.at holds.is_usable
                    (omega (arith, holds.kept.size_le, length-le-size m, get_elem?-lt m j h))
                    (later alone)))
          | inr (inl (m', q)) ↦
              let (holds, gone) = left m' (rw q at next) in
              rw (h, q, scan_loop)
                (holds, λ a v at' c. absurd (omega (arith, gone a v at', c)), λ x. cc)
          | inr (inr (inl q)) ↦
              let gone : Gone i m = rw q at next in
              rw (h, q, scan_loop)
                (
                  unchanged m i e at u,
                  λ a v at' c. absurd (omega (arith, gone a v at', c)),
                  λ x. gone,
                )
          | inr (inr (inr q)) ↦ rw (h, q, scan_loop) tt
        ]
  ]
    where
      ended :
          get_elem? m j ≡ none
          → (a : ℕ) (v : MemmapEntry) → get_elem? m i ≡ some v
          → cover a v ≡ 1
          → covers m a ≤ 1
      ended h a v at' c =
          let bound = rw (take-all m j (get_elem?-none m j h)) at (alone a v at' c) in
          ground (arith, bound)

      advanced :
          (m' : List MemmapEntry)
          → ScanNext i j m (move_on m')
          → Holds i m m' × (Alone i j m → Alone i (suc j) m')
      advanced m' p = p

      left : (m' : List MemmapEntry) → ScanNext i j m (leave m') → Holds i m m' × Gone i m'
      left m' p = p
