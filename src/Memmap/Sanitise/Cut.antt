-- ===== src/Memmap/Sanitise/Cut.antt =====
-- What the first pass of pmm_sanitise_entries() leaves of a usable entry beside another entry.
use limine_eucleia.Prelude.{ℕ, ◌+◌, ◌≤◌, ◌<◌, ◌≡◌, refl, true, false, ◌&&◌, arith, leb}
use limine_eucleia.Word.{word}
use limine_eucleia.Memmap.Entry.{MemmapEntry, cover, overflows}
use limine_eucleia.Memmap.Sanitise.Overlap.{splits, fragment, cut, too_wide}

module _ (e f : MemmapEntry) (e_ends : e.base + e.length < word)
    (f_ends : f.base + f.length < word) where
  abbrev top : ℕ
  top = e.base + e.length

  abbrev res_top : ℕ
  res_top = f.base + f.length

  pub cut_type : (cut e f top res_top).type ≡ e.type
  unfolding cut
  cut_type = refl

  pub cut_narrow : too_wide (cut e f top res_top) ≡ 0
  unfolding cut
  cut_narrow = ground arith

  pub cut_ends : overflows (cut e f top res_top) ≡ 0
  unfolding cut
  cut_ends = ground arith

  module _ (sp : splits e f top res_top ≡ true) (some_f : 0 < f.length) where
    pub split_parts : (cut e f top res_top).base ≡ e.base
    unfolding cut
    split_parts = ground arith

    split_length : (cut e f top res_top).length + e.base ≡ f.base
    unfolding cut
    split_length = ground arith

    pub split-le :
        (a : ℕ) → cover a (cut e f top res_top) + cover a (fragment e f top res_top) ≤ cover a e
    split-le a = ground (arith, split_parts, split_length)

    pub split-held :
        (a : ℕ)
        → cover a e ≤ cover a (cut e f top res_top) + cover a (fragment e f top res_top) + cover a f
    split-held a = ground (arith, split_parts, split_length)

    pub split-apart : (a : ℕ) → cover a (cut e f top res_top) + cover a f ≤ 1
    split-apart a = ground (arith, split_parts, split_length)

    pub split-size : (cut e f top res_top).length + (fragment e f top res_top).length + 1 ≤ e.length
    split-size = ground (arith, split_parts, split_length)

  module _ (sp : splits e f top res_top ≡ false)
      (part : (leb f.base e.base && leb top res_top) ≡ false) (some_f : 0 < f.length) where
    pub cut-size : (cut e f top res_top).length ≤ e.length
    unfolding cut
    cut-size = ground arith

    pub cut-le : (a : ℕ) → cover a (cut e f top res_top) ≤ cover a e
    unfolding cut
    cut-le a = ground arith

    pub cut-held : (a : ℕ) → cover a e ≤ cover a (cut e f top res_top) + cover a f
    unfolding cut
    cut-held a = ground arith

    pub cut-apart : (a : ℕ) → cover a (cut e f top res_top) + cover a f ≤ 1
    unfolding cut
    cut-apart a = ground arith
