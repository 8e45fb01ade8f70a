-- ===== src/Fat/Followed.antt =====
-- cache_cluster_chain() of common/fs/fat32.s2.c finds the chain that the table has.
use limine_eucleia.Prelude.{
  ℕ, zero, suc, ◌+◌, ◌≤◌, ◌<◌, ◌≡◌, ◌∙◌, ap, sym, subst, true, false, Option, none, some, List, [],
  ◌∷◌, arith, ltb, ltb→lt, length, ok, All, Ends, Ends-bind, Ends-if,
}
use mathlib.Core.Bool.{false≢true}
use limine_eucleia.Word.{word}
use limine_eucleia.Disk.Bytes.{bytes_from}
use limine_eucleia.Disk.Volume.{Device, Rest}
use limine_eucleia.Disk.Cached.{IsSome}
use limine_eucleia.Disk.Source.{Source, Gives}
use limine_eucleia.Fat.Context.{Context}
use limine_eucleia.Fat.Table.{
  fat_size, fat_base, entry_offset, entry_size, entry_value, from_bytes, ends_chain,
  read_cluster_from_map, Count, one_more, count_next, count_chain,
}

-- What the table says of a cluster.
abbrev pub table_entry : Context → (byte : ℕ → ℕ) → (cluster : ℕ) → ℕ
table_entry c byte x =
    entry_value c x (bytes_from byte (fat_base c + entry_offset c x) (entry_size c))

-- The clusters from a number on, each the table's entry of the one before, up to a number that ends
-- the chain.
abbrev pub Linked : Context → (byte : ℕ → ℕ) → (first : ℕ) → List ℕ → Type 0
Linked c byte x [] = ends_chain c x ≡ true
Linked c byte x (y ∷ ys) =
    (ends_chain c x ≡ false) × ((y ≡ x) × Linked c byte (table_entry c byte x) ys)

-- The entry of a cluster lies in the table.
abbrev pub InTable : Context → ℕ → Type 0
InTable c x = entry_offset c x + entry_size c ≤ fat_size c

module _ (read : Rest) (source : Source read) (c : Context)
    (fits : fat_base c + fat_size c < word) where
  abbrev pub entry : ℕ → ℕ
  entry = table_entry c source.byte

  -- The table lies in the volume, on a disk that answers.
  abbrev pub TableRead : Type 0
  TableRead = source.Answers × (fat_base c + fat_size c ≤ source.size)

  abbrev pub EntryRead : ℕ → Option ℕ → Type 0
  EntryRead x none = Unit
  EntryRead x (some y) = (y ≡ entry x) × InTable c x

  pub record MapRead (x : ℕ) (r : Device × Option ℕ) : Type 0 where
    pub good : source.Good r.0
    pub is : EntryRead x r.1
    pub served : TableRead → InTable c x → IsSome r.1

  from_bytes-MapRead :
      (x : ℕ) (r : Device × Option (List ℕ))
      → InTable c x
      → source.Good r.0
      → Gives source.byte (fat_base c + entry_offset c x) (entry_size c) r.1
      → (TableRead → IsSome r.1)
      → MapRead x (from_bytes c x r)
  from_bytes-MapRead x (d, none) i good b s = record { good = good; is = tt; served = λ t j. s t }
  from_bytes-MapRead x (d, some bs) i good b s = record {
    good = good;
    is = (ap (entry_value c x) b, i);
    served = λ t j. tt;
  }

  some_entry : 0 < entry_size c
  some_entry = ground arith

  pub read_cluster_from_map-MapRead :
      (d : Device) (x : ℕ) → source.Good d → Ends (read_cluster_from_map read c d x) (MapRead x)
  unfolding read_cluster_from_map
  read_cluster_from_map-MapRead d x good =
      Ends-if (ltb (fat_size c) (entry_offset c x + entry_size c)) (ok (d, none)) _ (MapRead x)
        (λ e. record {
          good = good;
          is = tt;
          served = λ t i.
              absurd (omega (arith, i, ltb→lt (fat_size c) (entry_offset c x + entry_size c) e));
        })
        (λ e.
          let i : InTable c x = ground (arith, e) in
          Ends-bind (read d (fat_base c + entry_offset c x) (entry_size c)) _ _ (MapRead x)
            (source.reads d (fat_base c + entry_offset c x) (entry_size c) good
              (omega (arith, i, fits)))
            (λ r g.
              from_bytes-MapRead x r i g.0 g.1.0
                (λ t. g.1.1 t.0 some_entry (omega (arith, i, t.1)))))

  module _ (readable : ℕ) where
    -- A chain of a length, in the part of the volume that can be read.
    abbrev pub Walks : (n x : ℕ) → Type 0
    Walks zero x = ends_chain c x ≡ true
    Walks (suc n) x =
        (ends_chain c x ≡ false) × ((x ≤ readable) × (InTable c x × Walks n (entry x)))

    abbrev pub Usable : ℕ → Type 0
    Usable x = (x ≤ readable) × InTable c x

    abbrev pub CountedAs : (left x : ℕ) → Option ℕ → Type 0
    CountedAs left x none = Unit
    CountedAs left x (some n) = (n ≤ left) × Walks n x

    pub record Counted (left x : ℕ) (r : Device × Option ℕ) : Type 0 where
      pub good : source.Good r.0
      pub is : CountedAs left x r.1
      pub served :
          TableRead
          → (cs : List ℕ) → Linked c source.byte x cs
          → All Usable cs
          → length cs ≤ left
          → IsSome r.1

    one_more-Counted :
        (left x : ℕ)
        → ends_chain c x ≡ false
        → x ≤ readable
        → InTable c x
        → (r : Device × Option ℕ) → Counted left (entry x) r
        → Counted (suc left) x (one_more read c r)
    one_more-Counted left x e u i (d, none) h = record { good = h.good; is = tt; served = more }
      where
        more :
            TableRead
            → (cs : List ℕ) → Linked c source.byte x cs
            → All Usable cs
            → length cs ≤ suc left
            → IsSome {A = ℕ} none
        more t [] l a k = absurd (false≢true (sym e ∙ l))
        more t (y ∷ ys) l a k = h.served t ys l.1.1 a.1 (omega (arith, k))
    one_more-Counted left x e u i (d, some n) h = record {
      good = h.good;
      is = (omega (arith, h.is.0), (e, (u, (i, h.is.1))));
      served = λ t cs l a k. tt;
    }

    count_next-Counted :
        (again : Count read c) (left x : ℕ)
        → ends_chain c x ≡ false
        → x ≤ readable
        → ((d : Device) (y : ℕ)
            → ends_chain c y ≡ false
            → source.Good d
            → Ends (again d y) (Counted left y))
        → (r : Device × Option ℕ) → MapRead x r
        → Ends (count_next read c again r) (Counted (suc left) x)
    count_next-Counted again left x e u h (d, none) m = record {
      good = m.good;
      is = tt;
      served = more;
    }
      where
        more :
            TableRead
            → (cs : List ℕ) → Linked c source.byte x cs
            → All Usable cs
            → length cs ≤ suc left
            → IsSome {A = ℕ} none
        more t [] l a k = absurd (false≢true (sym e ∙ l))
        more t (y ∷ ys) l a k = m.served t (subst (InTable c) l.1.0 a.0.1)
    count_next-Counted again left x e u h (d, some y) m =
        Ends-if (ends_chain c y) (ok (d, some 1)) _ (Counted (suc left) x)
          (λ q. record {
            good = m.good;
            is = (omega arith, (e, (u, (m.is.1, ap (ends_chain c) (sym m.is.0) ∙ q))));
            served = λ t cs l a k. tt;
          })
          (λ q.
            Ends-bind (again d y) _ (Counted left y) (Counted (suc left) x) (h d y q m.good)
              (λ r g. one_more-Counted left x e u m.is.1 r (rw m.is.0 at g)))

    pub count_chain-Counted :
        (left : ℕ) (d : Device) (x : ℕ)
        → ends_chain c x ≡ false
        → source.Good d
        → Ends (count_chain read c readable left d x) (Counted left x)
    unfolding count_chain
    count_chain-Counted zero d x e good = record { good = good; is = tt; served = never }
      where
        never :
            TableRead
            → (cs : List ℕ) → Linked c source.byte x cs
            → All Usable cs
            → length cs ≤ 0
            → IsSome {A = ℕ} none
        never t [] l a k = absurd (false≢true (sym e ∙ l))
        never t (y ∷ ys) l a k = absurd (omega (arith, k))
    count_chain-Counted (suc left) d x e good =
        Ends-if (ltb readable x) (ok (d, none)) _ (Counted (suc left) x)
          (λ q. record { good = good; is = tt; served = beyond q })
          (λ q.
            Ends-bind (read_cluster_from_map read c d x) _ (MapRead x) (Counted (suc left) x)
              (read_cluster_from_map-MapRead d x good)
              (count_next-Counted (count_chain read c readable left) left x e (ground (arith, q))
                (count_chain-Counted left)))
      where
        beyond :
            ltb readable x ≡ true
            → TableRead
            → (cs : List ℕ) → Linked c source.byte x cs
            → All Usable cs
            → length cs ≤ suc left
            → IsSome {A = ℕ} none
        beyond q t [] l a k = absurd (false≢true (sym e ∙ l))
        beyond q t (y ∷ ys) l a k =
            absurd (omega (arith, ltb→lt readable x q, subst (λ (z : ℕ). z ≤ readable) l.1.0 a.0.0))
