-- ===== src/Memmap/Sanitise/Align.antt =====
-- align_entry() of common/mm/pmm.s2.c.
use limine_eucleia.Prelude.{ℕ, ◌+◌, ◌%◌, ◌≤◌, ◌<◌, ◌≡◌, refl, none, some, arith, Bool, true, false}
use limine_eucleia.Word.{word}
use limine_eucleia.Memmap.Entry.{MemmapEntry, cover}
use limine_eucleia.Memmap.Sanitise.Separate.{align_entry, settle_entry, page_size}

-- The entry that is left: page-aligned at both ends, not empty, and inside of the old one.
pub record Trims (e e' : MemmapEntry) : Type 0 where
  pub type_same : e'.type ≡ e.type
  pub base_aligned : e'.base % page_size ≡ 0
  pub length_aligned : e'.length % page_size ≡ 0
  pub not_empty : 0 < e'.length
  pub base_ge : e.base ≤ e'.base
  pub top_le : e'.base + e'.length ≤ e.base + e.length
  pub near : e.base + e.length < e'.base + e'.length + page_size

-- For an entry with a 64-bit length that align_entry() keeps, the entry left is of the same
-- type, has a base and a length that are multiples of the page size and is not empty; it lies
-- inside the old entry, and loses less than a page at its end.
pub align_entry-Trims :
    (e e' : MemmapEntry) → e.length < word → align_entry e ≡ some e' → Trims e e'
unfolding align_entry
align_entry-Trims e e' w h = ground arith

pub cover-Trims : (a : ℕ) (e e' : MemmapEntry) → Trims e e' → cover a e' ≤ cover a e
cover-Trims a e e' t = ground (arith)

-- What the pass leaves of an entry that it keeps; without the alignment it is the same entry.
pub record Shrinks (align_entries : Bool) (e e' : MemmapEntry) : Type 0 where
  pub type_same : e'.type ≡ e.type
  pub length_le : e'.length ≤ e.length
  pub top_le : e'.base + e'.length ≤ e.base + e.length
  pub cover_le : (a : ℕ) → cover a e' ≤ cover a e
  pub same : align_entries ≡ false → e' ≡ e

pub settle_entry-some :
    (align_entries : Bool) (e e' : MemmapEntry)
    → e.length < word
    → settle_entry align_entries e ≡ some e'
    → Shrinks align_entries e e'
unfolding settle_entry
settle_entry-some true e e' w h =
    let t : Trims e e' = align_entry-Trims e e' w (ground arith) in
    record {
      type_same = t.type_same;
      length_le = omega (arith, t.base_ge, t.top_le);
      top_le = t.top_le;
      cover_le = λ a. cover-Trims a e e' t;
      same = λ f. cc;
    }
settle_entry-some false e e' w h =
    let q : e' ≡ e = ground arith in
    rw q (record {
      type_same = refl;
      length_le = omega arith;
      top_le = omega arith;
      cover_le = λ a. omega arith;
      same = λ f. refl;
    })

pub settle_entry-none : (e : MemmapEntry) → settle_entry false e ≡ none → (a : ℕ) → cover a e ≡ 0
unfolding settle_entry
settle_entry-none e h a = ground arith
