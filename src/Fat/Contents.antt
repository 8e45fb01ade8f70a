-- ===== src/Fat/Contents.antt =====
-- read_cluster_chain() of common/fs/fat32.s2.c reads the bytes of a file.
use limine_eucleia.Prelude.{
  ℕ, zero, suc, ◌+◌, ◌-◌, ◌*◌, ◌/◌, ◌%◌, ◌≤◌, ◌<◌, ◌≡◌, ◌∙◌, ap, subst, refl, Option, none, some,
  List, [], ◌∷◌, ◌++◌, arith, ltb, length, get_elem?, get_elem?-none, get_or, ok, All,
  mul_mono_left, suc-nonzero, Ends, Ends-bind, Ends-if,
}
use native.Mathlib.Nat.{
  div-add-mod', mod-lt, mod-eq_of_lt, div-eq_of_lt, add-mul-div_left, add-mul-mod_self_left,
}
use limine_eucleia.Word.{word}
use limine_eucleia.Disk.Bytes.{bytes_from, bytes_from-append, bytes_from-same}
use limine_eucleia.Disk.Volume.{Device, Rest, joined, chunk_size}
use limine_eucleia.Disk.Cached.{IsSome}
use limine_eucleia.Disk.Source.{Source, Gives}
use limine_eucleia.Fat.Context.{Context}
use limine_eucleia.Fat.Table.{
  block_size, cluster_base, then_more, read_in_cluster, read_clusters, read_cluster_chain,
}

-- Byte number `a` of a file: the byte at that place of the cluster that the chain has for it.
abbrev pub file_byte : Context → (byte : ℕ → ℕ) → (chain : List ℕ) → ℕ → ℕ
file_byte c byte chain a =
    byte (cluster_base c (get_or chain (a / block_size c) 0) + a % block_size c)

get_or-get_elem? : (xs : List ℕ) (i x : ℕ) → get_elem? xs i ≡ some x → get_or xs i 0 ≡ x
get_or-get_elem? [] i x e = cc
get_or-get_elem? (y ∷ xs) zero x e = cc
get_or-get_elem? (y ∷ xs) (suc i) x e = get_or-get_elem? xs i x e

All-get_elem? : (P : ℕ → Type 0) (xs : List ℕ) (i x : ℕ) → All P xs → get_elem? xs i ≡ some x → P x
All-get_elem? P [] i x h e = absurd (none_some e)
  where
    none_some : none ≡ some x → ⊥
    none_some e = cc
All-get_elem? P (y ∷ xs) zero x h e = subst P (head y x e) h.0
  where
    head : (y x : ℕ) → some y ≡ some x → y ≡ x
    head y x e = cc
All-get_elem? P (y ∷ xs) (suc i) x h e = All-get_elem? P xs i x h.1 e

module _ (read : Rest) (source : Source read) (c : Context) (chain : List ℕ)
    (some_block : 0 < block_size c) where
  -- Clusters that end below 2^64.
  abbrev pub Narrow : ℕ → Type 0
  Narrow cluster = cluster_base c cluster + block_size c < word

  -- Clusters that lie in the volume.
  abbrev pub Present : ℕ → Type 0
  Present cluster = (2 ≤ cluster) × (cluster_base c cluster + block_size c ≤ source.size)

  -- Bytes of the file; a disk that answers gives all that the chain has.
  pub record FileRead (loc count : ℕ) (r : Device × Option (List ℕ)) : Type 0 where
    pub good : source.Good r.0
    pub bytes : Gives (file_byte c source.byte chain) loc count r.1
    pub served :
        source.Answers → All Present chain → loc + count ≤ length chain * block_size c → IsSome r.1

  chunk_fits :
      (size pos left : ℕ)
      → 0 < size
      → 0 < left
      → (0 < chunk_size size pos left)
        × (chunk_size size pos left ≤ left)
        × (pos % size + chunk_size size pos left ≤ size)
  chunk_fits size pos left h l = ground (arith, mod-lt pos h)

  in_one_block :
      (size pos i : ℕ)
      → pos % size + i < size
      → ((pos + i) / size ≡ pos / size) × ((pos + i) % size ≡ pos % size + i)
  in_one_block size pos i h =
      let split : pos + i ≡ pos % size + i + size * (pos / size) =
        omega (arith, div-add-mod' pos size) in
      let some_size : 0 < size = omega (arith, h) in
      (
        ap (λ (t : ℕ). t / size) split
            ∙ add-mul-div_left (pos % size + i) (pos / size) some_size
            ∙ ap (λ (t : ℕ). t + pos / size) (div-eq_of_lt h)
            ∙ zero_plus (pos / size),
        ap (λ (t : ℕ). t % size) split
            ∙ add-mul-mod_self_left (pos % size + i) size (pos / size)
            ∙ mod-eq_of_lt h,
      )
    where
      zero_plus : (a : ℕ) → 0 + a ≡ a
      zero_plus a = omega arith

  module _ (narrow : All Narrow chain) where
    abbrev Again : Rest → ℕ → Type 0
    Again again left =
        (d : Device) (pos left' : ℕ)
        → left' < left
        → pos + left' < word
        → source.Good d
        → Ends (again d pos left') (FileRead pos left')

    joined-FileRead :
        (pos chunk left : ℕ) (front : List ℕ) (s : Device × Option (List ℕ))
        → chunk ≤ left
        → front ≡ bytes_from (file_byte c source.byte chain) pos chunk
        → FileRead (pos + chunk) (left - chunk) s
        → FileRead pos left (joined front s)
    joined-FileRead pos chunk left front (d, none) h e r = record {
      good = r.good;
      bytes = tt;
      served = λ a p i. r.served a p (omega (arith, i, h));
    }
    joined-FileRead pos chunk left front (d, some back) h e r =
        let all : chunk + (left - chunk) ≡ left = omega (arith, h) in
        record {
          good = r.good;
          bytes =
              ap (λ (t : List ℕ). t ++ back) e
              ∙ ap (λ (t : List ℕ). bytes_from (file_byte c source.byte chain) pos chunk ++ t)
                  r.bytes
              ∙ bytes_from-append (file_byte c source.byte chain) pos chunk (left - chunk)
              ∙ ap (bytes_from (file_byte c source.byte chain) pos) all;
          served = λ a p i. tt;
        }

    -- The bytes of a cluster are those of the file.
    cluster-file_byte :
        (pos chunk cluster : ℕ)
        → get_elem? chain (pos / block_size c) ≡ some cluster
        → pos % block_size c + chunk ≤ block_size c
        → bytes_from source.byte (cluster_base c cluster + pos % block_size c) chunk
          ≡ bytes_from (file_byte c source.byte chain) pos chunk
    cluster-file_byte pos chunk cluster e f =
        bytes_from-same source.byte (file_byte c source.byte chain)
          (cluster_base c cluster + pos % block_size c) pos chunk
          (λ i l.
            let place = in_one_block (block_size c) pos i (omega (arith, l, f)) in
            let same : get_or chain (pos / block_size c) 0 ≡ cluster =
              get_or-get_elem? chain (pos / block_size c) cluster e in
            rw (place.0) (rw (place.1) (rw same (ap source.byte (omega arith)))))

    then_more-FileRead :
        (again : Rest) (pos left chunk cluster : ℕ)
        → get_elem? chain (pos / block_size c) ≡ some cluster
        → pos % block_size c + chunk ≤ block_size c
        → 0 < chunk
        → chunk ≤ left
        → pos + left < word
        → Again again left
        → (r : Device × Option (List ℕ)) → source.Good r.0
        → Gives source.byte (cluster_base c cluster + pos % block_size c) chunk r.1
        → (source.Answers → Present cluster → IsSome r.1)
        → Ends (then_more read c again pos chunk left r) (FileRead pos left)
    then_more-FileRead again pos left chunk cluster e f some_chunk h w ih (d, none) good b served =
        record {
          good = good;
          bytes = tt;
          served = λ a p i. served a (All-get_elem? Present chain (pos / block_size c) cluster p e);
        }
    then_more-FileRead again pos left chunk cluster e f some_chunk h w ih (d, some bs) good b
          served =
        let next : (pos + chunk) % word ≡ pos + chunk = mod-eq_of_lt (omega (arith, w, h)) in
        Ends-bind (again d ((pos + chunk) % word) (left - chunk)) _
          (FileRead (pos + chunk) (left - chunk)) (FileRead pos left)
          (rw next (
            ih d (pos + chunk) (left - chunk) (omega (arith, h, some_chunk)) (omega (arith, w, h))
              good))
          (λ s q.
            joined-FileRead pos chunk left bs s h (b ∙ cluster-file_byte pos chunk cluster e f) q)

    refused :
        (d : Device) (pos left : ℕ)
        → source.Good d
        → (source.Answers → All Present chain → pos + left ≤ length chain * block_size c → ⊥)
        → FileRead pos left (d, none)
    refused d pos left good never = record {
      good = good;
      bytes = tt;
      served = λ a p i. absurd (never a p i);
    }

    read_in_cluster-FileRead :
        (again : Rest) (d : Device) (pos left : ℕ) (o : Option ℕ)
        → get_elem? chain (pos / block_size c) ≡ o
        → 0 < left
        → pos + left < word
        → source.Good d
        → Again again left
        → Ends (read_in_cluster read c again d pos left o) (FileRead pos left)
    read_in_cluster-FileRead again d pos left none e l w good ih = refused d pos left good (λ a p i.
        let past = get_elem?-none chain (pos / block_size c) e in
        let parts = div-add-mod' pos (block_size c) in
        let most = mul_mono_left (length chain) (pos / block_size c) (block_size c) past in
        omega (arith, parts, most, i, l))
    read_in_cluster-FileRead again d pos left (some cluster) e l w good ih =
        let size = block_size c in
        let chunk = chunk_size size pos left in
        let fits = chunk_fits size pos left some_block l in
        let low = All-get_elem? Narrow chain (pos / size) cluster narrow e in
        Ends-if (ltb cluster 2) (ok (d, none)) _ (FileRead pos left)
          (λ q. refused d pos left good (λ a p i.
            let two = (All-get_elem? Present chain (pos / size) cluster p e).0 in
            ground (arith, q, two)))
          (λ q.
            Ends-bind (read d (cluster_base c cluster + pos % size) chunk) _ _ (FileRead pos left)
              (source.reads d (cluster_base c cluster + pos % size) chunk good
                (omega (arith, low, fits)))
              (λ r g.
                then_more-FileRead again pos left chunk cluster e fits.2 fits.0 fits.1 w ih r g.0
                  g.1.0 (λ a p. g.1.1 a fits.0 (omega (arith, p.1, fits)))))

    read_clusters-FileRead :
        (fuel : ℕ) (d : Device) (pos left : ℕ)
        → left ≤ fuel
        → pos + left < word
        → source.Good d
        → Ends (read_clusters read c chain fuel d pos left) (FileRead pos left)
    unfolding read_clusters
    read_clusters-FileRead fuel d pos zero h w good = none_left fuel
      where
        none_left : (fuel : ℕ) → Ends (read_clusters read c chain fuel d pos 0) (FileRead pos 0)
        none_left zero = record { good = good; bytes = refl; served = λ a p i. tt }
        none_left (suc fuel) = record { good = good; bytes = refl; served = λ a p i. tt }
    read_clusters-FileRead zero d pos (suc left) h w good = absurd (omega (arith, h))
    read_clusters-FileRead (suc fuel) d pos (suc left) h w good = rw (suc-nonzero left) (
        read_in_cluster-FileRead (read_clusters read c chain fuel) d pos (suc left)
          (get_elem? chain (pos / block_size c)) refl (omega arith) w good
          (λ d' pos' left' less w' good'.
            read_clusters-FileRead fuel d' pos' left' (omega (arith, less, h)) w' good'))

    -- On a volume that is read as its interface (Source) says, for a cluster size above 0,
    -- clusters that end below 2^64, and a range that ends below 2^64, read_cluster_chain() comes
    -- to an end: it panics, or returns false, or fills the buffer with the bytes of the file, of
    -- which byte a is byte a modulo the cluster size of cluster number a / the cluster size in
    -- the chain; and where the volume answers and all clusters of the chain lie in it, it does
    -- not return false for a range that the chain holds.
    pub read_cluster_chain-FileRead :
        (d : Device) (loc count : ℕ)
        → loc + count < word
        → source.Good d
        → Ends (read_cluster_chain read c d chain loc count) (FileRead loc count)
    unfolding read_cluster_chain
    read_cluster_chain-FileRead d loc count w good =
        read_clusters-FileRead count d loc count (omega arith) w good
