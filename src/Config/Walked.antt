-- ===== src/Config/Walked.antt =====
-- The loop of init_config_smbios() of common/lib/config.c.
use limine_eucleia.Prelude.{
  ℕ, zero, suc, ◌≤◌, ◌<◌, ◌≡◌, ◌≢◌, refl, true, false, not, ◌&&◌, Option, none, some, List, [], ◌∷◌,
  arith, ltb, leb, ◌==◌, if◌then◌else◌, length, drop, get_or, inl, inr, Result, ok, Returns,
  Returns-if, Returns-ok, ◌>>=◌, Returns_mono,
}
use limine_eucleia.Config.Room.{length-drop}
use limine_eucleia.Config.Table.{Fits, Fits-length, Returns-reads, Sized, smbios_struct_size-Fits}
use limine_eucleia.Config.Found.{
  Counted, later, FoundIn, Found-Counted, Found-size, Found-type, Fits-least, Found-left, same_size,
  Found-behind, config-Found,
}
use limine_eucleia.Config.Smbios.{
  header_size, reads, smbios_struct_size, struct_text, is_config, Walk, walk_size, walk, walk_table,
}

length-drop-suc : (k : ℕ) (s : List ℕ) → 1 ≤ length s → length (drop (suc k) s) < length s
length-drop-suc k [] h = absurd (omega (arith, h))
length-drop-suc k (c ∷ s) h = omega (arith, length-drop k s)

-- What the loop is to satisfy on shorter texts.
abbrev Walks : (count : ℕ) → Walk → List ℕ → Type 0
Walks count again s =
    (n : ℕ) (t : List ℕ) → length t < length s → Returns (again n t) (FoundIn count n t)

FoundIn-behind :
    (count n k : ℕ) (s : List ℕ) (o : Option (List ℕ))
    → smbios_struct_size s ≡ ok k
    → Counted count n
    → Fits s k
    → get_or s 0 0 ≢ 127
    → is_config k s ≡ false
    → FoundIn count (suc n) (drop k s) o
    → FoundIn count n s o
FoundIn-behind count n k s none z c f y q h = λ t g. h t (Found-behind k s z q g)
FoundIn-behind count n k s (some t) z c f y q h = later c f y h

walk_size-FoundIn :
    (again : Walk) (count n : ℕ) (s : List ℕ) (size : ℕ)
    → smbios_struct_size s ≡ ok size
    → Sized s size
    → Walks count again s
    → Counted count n
    → get_or s 0 0 ≢ 127
    → 1 ≤ length s
    → Returns (walk_size again n s size) (FoundIn count n s)
walk_size-FoundIn again count n s zero e p h c y l =
    λ t g. let (k, f) = Found-size s g in omega (arith, same_size s 0 k e f, Fits-least s k f)
walk_size-FoundIn again count n s (suc k) e (inl z) h c y l = absurd (omega (arith, z))
walk_size-FoundIn again count n s (suc k) e (inr f) h c y l =
    let found : Result (Option (List ℕ)) = ok (some (drop 14 (struct_text (suc k) s))) in
    let next = again (suc n) (drop (suc k) s) in
    let onward : Result (Option (List ℕ)) = if leb (length s) (suc k) then ok none else next in
    Returns-reads (suc k) s (if is_config (suc k) s then found else onward) (FoundIn count n s)
      (Fits-length s (suc k) f)
      (Returns-if (is_config (suc k) s) found onward (FoundIn count n s)
        (λ q. config-Found count n (suc k) s c f q)
        (λ q.
          Returns-if (leb (length s) (suc k)) (ok none) next (FoundIn count n s)
            (λ r t g. Found-left (suc k) s (ground (arith, r)) (Found-behind (suc k) s e q g))
            (λ r.
              Returns_mono next (FoundIn count (suc n) (drop (suc k) s)) (FoundIn count n s)
                (λ o u. FoundIn-behind count n (suc k) s o e c f y q u)
                (h (suc n) (drop (suc k) s) (length-drop-suc k s l)))))

counted : (count n : ℕ) → (not (count == 0) && leb count n) ≡ false → Counted count n
counted zero n h = inl refl
counted (suc k) n h = inr (ground (arith, h))

not-Counted : (count n : ℕ) → (not (count == 0) && leb count n) ≡ true → ¬ Counted count n
not-Counted count n h (inl z) = ground (arith, h, z)
not-Counted count n h (inr l) = ground (arith, h, l)

walk-FoundIn :
    (fuel count n : ℕ) (s : List ℕ)
    → length s < fuel
    → Returns (walk fuel count n s) (FoundIn count n s)
unfolding walk
walk-FoundIn zero count n s h = absurd (omega (arith, h))
walk-FoundIn (suc fuel) count n s h =
    let next = smbios_struct_size s >>= walk_size (walk fuel count) n s in
    let typed : Result (Option (List ℕ)) = if get_or s 0 0 == 127 then ok none else next in
    let read = reads header_size s typed in
    let long : Result (Option (List ℕ)) = if ltb (length s) header_size then ok none else read in
    let (size, e, p) = Returns-ok (smbios_struct_size s) (Sized s) (smbios_struct_size-Fits s) in
    Returns-if (not (count == 0) && leb count n) (ok none) long (FoundIn count n s)
      (λ q t g. not-Counted count n q (Found-Counted g))
      (λ q.
        Returns-if (ltb (length s) header_size) (ok none) read (FoundIn count n s)
          (λ r t g.
            let (k, f) = Found-size s g in ground (arith, r, Fits-length s k f, Fits-least s k f))
          (λ r. Returns-reads header_size s typed (FoundIn count n s) (ground (arith, r)) (
            Returns-if (get_or s 0 0 == 127) (ok none) next (FoundIn count n s)
              (λ u t g. Found-type g (ground (arith, u)))
              (λ u. rw e (
                walk_size-FoundIn (walk fuel count) count n s size e p
                  (λ m t l. walk-FoundIn fuel count m t (omega (arith, l, h))) (counted count n q)
                  (λ z. ground (arith, u, z)) (ground (arith, r)))))))

-- The loop over the structures of an SMBIOS table comes to an end on every table, without a
-- panic and without a read outside the table. A configuration that it returns is not empty and
-- is what follows "limine:config:" in the first string of a structure of type 11, which is
-- reached over structures none of which is of type 127, with each of their numbers below the
-- count (0 is no limit); every structure has a header length of at least 4 within the table and
-- ends with the first two NUL characters that follow each other behind its header. Where it
-- returns nothing, the table has no such configuration.
pub walk_table-FoundIn :
    (count : ℕ) (s : List ℕ) → Returns (walk_table count (some s)) (FoundIn count 0 s)
walk_table-FoundIn count s =
    Returns-if (length s == 0) (ok none) (walk (suc (length s)) count 0 s) (FoundIn count 0 s)
      (λ q t g. Found-left 0 s (ground (arith, q)) g)
      (λ q. walk-FoundIn (suc (length s)) count 0 s (omega arith))
