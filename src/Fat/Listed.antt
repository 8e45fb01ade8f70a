-- ===== src/Fat/Listed.antt =====
-- cache_cluster_chain() of common/fs/fat32.s2.c as a whole: the chain that it keeps in memory.
use limine_eucleia.Prelude.{
  ℕ, zero, suc, ◌+◌, ◌*◌, ◌≤◌, ◌<◌, ◌≡◌, ap, sym, subst, refl, false, Option, none, some, List,
  arith, inl, inr, ltb, length, All, Bool-cases, Ends, Ends_mono, Ends-bind, sum_by,
}
use limine_eucleia.Word.{word}
use limine_eucleia.Memmap.Entry.{overflows, bootloader_reclaimable}
use limine_eucleia.Memmap.Alloc.Range.{Pmm, pmm_free, at_least_one}
use limine_eucleia.Memmap.Alloc.High.{ext_mem_alloc, ext_mem_alloc_counted}
use limine_eucleia.Memmap.Alloc.Served.{Served}
use limine_eucleia.Memmap.Alloc.Freed.{Fine, pmm_free-Fine, ext_mem_alloc-Served}
use limine_eucleia.Disk.Volume.{Device, Rest}
use limine_eucleia.Disk.Cached.{IsSome}
use limine_eucleia.Disk.Source.{Source}
use limine_eucleia.Fat.Context.{Context}
use limine_eucleia.Fat.Table.{
  read_cluster_from_map, with_pmm, fat_size, fat_base, max_clusters, readable_cluster_limit,
  ends_chain, Chain, in_front, ListFrom, list_next, list_chain, keep_chain, fill_chain,
  chain_within, count_chain, cache_cluster_chain,
}
use limine_eucleia.Fat.Followed.{
  Linked, entry, TableRead, MapRead, read_cluster_from_map-MapRead, Walks, Usable, Counted,
  count_chain-Counted,
}

module _ (read : Rest) (source : Source read) (c : Context) (fits : fat_base c + fat_size c < word)
    (readable : ℕ) where
  -- A list that is the chain, of clusters that can be read.
  record Lists (n x : ℕ) (cs : List ℕ) : Type 0 where
    pub linked : Linked c source.byte x cs
    pub usable : All (Usable read source c fits readable) cs
    pub size : length cs ≡ n

  abbrev ListedAs : (n x : ℕ) → Option (List ℕ) → Type 0
  ListedAs n x none = Unit
  ListedAs n x (some cs) = Lists n x cs

  record Listed (n x : ℕ) (r : Device × Option (List ℕ)) : Type 0 where
    pub good : source.Good r.0
    pub is : ListedAs n x r.1
    pub served : TableRead read source c fits → IsSome r.1

  in_front-Listed :
      (n x : ℕ)
      → ends_chain c x ≡ false
      → Usable read source c fits readable x
      → (r : Device × Option (List ℕ)) → Listed n (entry read source c fits x) r
      → Listed (suc n) x (in_front read c x r)
  in_front-Listed n x e u (d, none) h = record { good = h.good; is = tt; served = h.served }
  in_front-Listed n x e u (d, some cs) h = record {
    good = h.good;
    is = record {
      linked = (e, (refl, h.is.linked));
      usable = (u, h.is.usable);
      size = ap suc h.is.size;
    };
    served = λ t. tt;
  }

  list_next-Listed :
      (again : ListFrom read c) (n x : ℕ)
      → Walks read source c fits readable (suc n) x
      → ((d : Device) (y : ℕ)
          → Walks read source c fits readable n y
          → source.Good d
          → Ends (again d y) (Listed n y))
      → (r : Device × Option ℕ) → MapRead read source c fits x r
      → Ends (list_next read c again x r) (Listed (suc n) x)
  list_next-Listed again n x w h (d, none) m = record {
    good = m.good;
    is = tt;
    served = λ t. absurd (m.served t w.1.1.0);
  }
  list_next-Listed again n x w h (d, some y) m =
      Ends-bind (again d y) _ (Listed n y) (Listed (suc n) x)
        (h d y (subst (Walks read source c fits readable n) (sym m.is.0) w.1.1.1) m.good)
        (λ r g. in_front-Listed n x w.0 (w.1.0, w.1.1.0) r (rw m.is.0 at g))

  list_chain-Listed :
      (n : ℕ) (d : Device) (x : ℕ)
      → Walks read source c fits readable n x
      → source.Good d
      → Ends (list_chain read c n d x) (Listed n x)
  unfolding list_chain
  list_chain-Listed zero d x w good = record {
    good = good;
    is = record { linked = w; usable = tt; size = refl };
    served = λ t. tt;
  }
  list_chain-Listed (suc n) d x w good =
      Ends-bind (read_cluster_from_map read c d x) _ (MapRead read source c fits x)
        (Listed (suc n) x) (read_cluster_from_map-MapRead read source c fits d x good)
        (list_next-Listed (list_chain read c n) n x w (list_chain-Listed n))

  -- The chain that is kept, and that there is one if the table has one that is not too long.
  abbrev pub ChainFrom : (x : ℕ) → Option Chain → Type 0
  ChainFrom x none = Unit
  ChainFrom x (some k) =
      Linked c source.byte x k.clusters
      × (All (Usable read source c fits readable) k.clusters × (length k.clusters ≤ max_clusters c))

  pub record Cached (x : ℕ) (r : Device × Option Chain) : Type 0 where
    pub good : source.Good r.0
    pub is : ChainFrom x r.1
    pub served :
        TableRead read source c fits
        → (cs : List ℕ) → Linked c source.byte x cs
        → All (Usable read source c fits readable) cs
        → length cs ≤ max_clusters c
        → IsSome r.1

  keep_chain-Cached :
      (address n x : ℕ)
      → n ≤ max_clusters c
      → (r : Device × Option (List ℕ)) → Listed n x r
      → Ends (keep_chain read c address n r) (Cached x)
  keep_chain-Cached address n x k (d, none) h =
      let fine = source.fine d h.good in
      Ends-bind (pmm_free d.pmm address (n * 4)) _ (Fine d.pmm fine) (Cached x)
        (pmm_free-Fine d.pmm fine address (n * 4))
        (λ p f. record {
          good = source.moved d p h.good f;
          is = tt;
          served = λ t cs l a m. absurd (h.served t);
        })
  keep_chain-Cached address n x k (d, some cs) h = record {
    good = h.good;
    is = (h.is.linked, (h.is.usable, omega (arith, k, h.is.size)));
    served = λ t cs l a m. tt;
  }

  counted_fine :
      (p : Pmm) (n : ℕ)
      → sum_by overflows p.memmap ≡ 0
      → Ends (ext_mem_alloc_counted p n 4) (λ r. sum_by overflows r.1.memmap ≡ 0)
  unfolding ext_mem_alloc_counted
  counted_fine p n fine = elim (Bool-cases (ltb (n * 4) word)) [
    | inr e ↦ rw (e, ext_mem_alloc_counted) tt
    | inl e ↦
        rw (e, ext_mem_alloc_counted)
          (Ends_mono (ext_mem_alloc p (n * 4))
            (Served p (at_least_one p (n * 4)) bootloader_reclaimable 4096 0x1_0000_0000)
            (λ r. sum_by overflows r.1.memmap ≡ 0) (λ r s. s.ends)
            (ext_mem_alloc-Served p fine (n * 4)))
  ]

  fill_chain-Cached :
      (x : ℕ) (r : Device × Option ℕ)
      → Counted read source c fits readable (max_clusters c) x r
      → Ends (fill_chain read c x r) (Cached x)
  fill_chain-Cached x (d, none) h = record { good = h.good; is = tt; served = h.served }
  fill_chain-Cached x (d, some n) h =
      Ends-bind (ext_mem_alloc_counted d.pmm n 4) _ (λ r. sum_by overflows r.1.memmap ≡ 0)
        (Cached x) (counted_fine d.pmm n (source.fine d h.good))
        (λ r f.
          Ends-bind (list_chain read c n (with_pmm d r.1) x) _ (Listed n x) (Cached x)
            (list_chain-Listed n (with_pmm d r.1) x h.is.1 (source.moved d r.1 h.good f))
            (keep_chain-Cached r.0 n x h.is.0))

  chain_within-Cached :
      (d : Device) (x : ℕ)
      → ends_chain c x ≡ false
      → source.Good d
      → Ends (chain_within read c d x (some readable)) (Cached x)
  chain_within-Cached d x e good =
      Ends-bind (count_chain read c readable (max_clusters c) d x) _
        (Counted read source c fits readable (max_clusters c) x) (Cached x)
        (count_chain-Counted read source c fits readable (max_clusters c) d x e good)
        (fill_chain-Cached x)

  -- On a volume that is read as its interface (Source) says and whose table ends below 2^64,
  -- from a valid cluster, where the readable limit is computed without an overflow,
  -- cache_cluster_chain() comes to an end: it panics, or returns NULL, or an array with the
  -- chain of the table (each cluster the table's entry of the one before, up to an entry that
  -- ends the chain), of at most the maximal length, whose clusters are at most the readable
  -- limit and have their entries inside the table; and where the volume answers and the table
  -- lies in it, it does not return NULL if the table has such a chain from there.
  pub cache_cluster_chain-Cached :
      (d : Device) (x : ℕ)
      → ends_chain c x ≡ false
      → readable_cluster_limit c d.volume.sect_count ≡ some readable
      → source.Good d
      → Ends (cache_cluster_chain read c d x) (Cached x)
  unfolding cache_cluster_chain
  cache_cluster_chain-Cached d x e q good = rw e (rw q (chain_within-Cached d x e good))
