-- ===== src/Config/Found.antt =====
-- A configuration in the structures of an SMBIOS table, for init_config_smbios() of common/lib/config.c.
use limine_eucleia.Prelude.{
  ℕ, zero, suc, ◌+◌, ◌-◌, ◌≤◌, ◌<◌, ◌≡◌, ◌≢◌, ◌⊎◌, ◌∙◌, ap, sym, refl, Bool, true, false, ◌&&◌,
  Option, none, some, List, [], ◌∷◌, ◌++◌, arith, ltb, ◌==◌, ==_iff, if◌then◌else◌, length,
  length-append, take, drop, get_or, Bool-cases, ok, inl, inr,
}
use limine_eucleia.Text.Strings.{strncmp}
use limine_eucleia.Config.Value.{is_equal}
use limine_eucleia.Config.Init.{text_of}
use limine_eucleia.Config.Table.{Fits, Fits-length, Fits-size}
use limine_eucleia.Config.Smbios.{
  header_size, struct_length, smbios_struct_size, config_prefix, struct_text, is_config,
}
use Prim.Native.Nat.{lt, gt}

-- A structure is looked at where its number is below the count, and 0 is no limit.
abbrev pub Counted : (count number : ℕ) → Type 0
Counted count n = (count ≡ 0) ⊎ (n < count)

-- A configuration in the structures from one of a number on: the first string of an OEM strings
-- structure is the prefix and the configuration, or one behind the structure has it.
pub data Found (count : ℕ) : (number : ℕ) (table text : List ℕ) → Type 0 where
  here :
      {n size : ℕ} {s t : List ℕ}
      → Counted count n
      → Fits s size
      → get_or s 0 0 ≡ 11
      → struct_text size s ≡ config_prefix ++ t
      → t ≢ []
      → Found count n s t
  later :
      {n size : ℕ} {s t : List ℕ}
      → Counted count n
      → Fits s size
      → get_or s 0 0 ≢ 127
      → Found count (suc n) (drop size s) t
      → Found count n s t

-- What is found: a configuration of the table, or nothing where there is none.
abbrev pub FoundIn : (count number : ℕ) → List ℕ → Option (List ℕ) → Type 0
FoundIn count n s none = (t : List ℕ) → ¬ Found count n s t
FoundIn count n s (some t) = Found count n s t

strncmp-prefix :
    (a b : List ℕ) (n : ℕ)
    → n ≤ length b
    → is_equal (strncmp a b n) ≡ true
    → a ≡ take n b ++ drop n a
unfolding strncmp
strncmp-prefix a b zero l h = refl
strncmp-prefix a [] (suc n) l h = absurd (omega (arith, l))
strncmp-prefix [] (d ∷ b) (suc n) l h = cc
strncmp-prefix (c ∷ a) (d ∷ b) (suc n) l h = elim (Bool-cases (c == d)) [
  | inl q ↦
      ap (λ x. x ∷ a) ((==_iff c d).0 q)
      ∙ ap (d ∷◌) (strncmp-prefix a b n (omega (arith, l)) (same q))
  | inr q ↦ absurd (other q)
]
  where
    compare : Bool → Bool
    compare t = is_equal (if t then strncmp a b n else if ltb c d then lt else gt)

    same : (c == d) ≡ true → is_equal (strncmp a b n) ≡ true
    same q = sym (ap compare q) ∙ h

    other : (c == d) ≡ false → ⊥
    other q = elim (Bool-cases (ltb c d)) [
      | inl r ↦ cc (sym (ap (λ t. is_equal (if t then lt else gt)) r) ∙ sym (ap compare q) ∙ h)
      | inr r ↦ cc (sym (ap (λ t. is_equal (if t then lt else gt)) r) ∙ sym (ap compare q) ∙ h)
    ]

prefix-strncmp : (b t : List ℕ) → is_equal (strncmp (b ++ t) b (length b)) ≡ true
unfolding strncmp
prefix-strncmp [] t = refl
prefix-strncmp (c ∷ b) t = rw ((==_iff c c).1 refl) (prefix-strncmp b t)

pub Found-Counted : {count n : ℕ} {s t : List ℕ} → Found count n s t → Counted count n
Found-Counted (here c f y e m) = c
Found-Counted (later c f y r) = c

pub Found-size :
    {count n : ℕ} {t : List ℕ} (s : List ℕ) → Found count n s t → (size : ℕ) × Fits s size
Found-size s (here {size = size} c f y e m) = (size, f)
Found-size s (later {size = size} c f y r) = (size, f)

pub Found-type : {count n : ℕ} {s t : List ℕ} → Found count n s t → get_or s 0 0 ≢ 127
Found-type (here c f y e m) = λ z. omega (arith, y, z)
Found-type (later c f y r) = y

pub Fits-least : (s : List ℕ) (size : ℕ) → Fits s size → header_size + 2 ≤ size
Fits-least s size f = omega (arith, f.headed, f.size_eq)

-- No structure begins behind one that reaches to the end.
pub Found-left :
    {count n : ℕ} {t : List ℕ} (size : ℕ) (s : List ℕ)
    → length s ≤ size
    → ¬ Found count n (drop size s) t
Found-left size s l f =
    let at = drop size s in
    let (k, g) = Found-size at f in
    omega (arith, Fits-least at k g, Fits-length at k g, drop-none size s l)
  where
    drop-none : (k : ℕ) (u : List ℕ) → length u ≤ k → length (drop k u) ≡ 0
    drop-none zero [] h = refl
    drop-none zero (c ∷ u) h = absurd (omega (arith, h))
    drop-none (suc k) [] h = refl
    drop-none (suc k) (c ∷ u) h = drop-none k u (omega (arith, h))

length-text_of : (s : List ℕ) → length (text_of s) ≤ length s
unfolding text_of
length-text_of [] = omega arith
length-text_of (c ∷ s) = elim (Bool-cases (c == 0)) [
  | inl q ↦ rw q (omega arith)
  | inr q ↦ rw q (omega (arith, length-text_of s))
]

take-short : (n : ℕ) (s : List ℕ) → length (take n s) ≤ n
take-short zero s = omega arith
take-short (suc n) [] = omega arith
take-short (suc n) (c ∷ s) = omega (arith, take-short n s)

not-empty : (t : List ℕ) → t ≢ [] → 1 ≤ length t
not-empty [] m = absurd (m refl)
not-empty (c ∷ t) m = omega arith

config-text :
    (size : ℕ) (s t : List ℕ)
    → get_or s 0 0 ≡ 11
    → struct_text size s ≡ config_prefix ++ t
    → t ≢ []
    → is_config size s ≡ true
config-text size s t y e m =
    let area = take (size - struct_length s) (drop (struct_length s) s) in
    let long : length (struct_text size s) ≡ 14 + length t =
      ap length e ∙ length-append config_prefix t in
    let fits = length-text_of area in
    let some_text = not-empty t m in
    let short = take-short (size - struct_length s) (drop (struct_length s) s) in
    let same : is_equal (strncmp (struct_text size s) config_prefix 14) ≡ true =
      ap (λ u. is_equal (strncmp u config_prefix 14)) e ∙ prefix-strncmp config_prefix t in
    all (get_or s 0 0 == 11) (ltb 14 (size - struct_length s))
      (is_equal (strncmp (struct_text size s) config_prefix 14))
      (ltb 14 (length (struct_text size s))) (ground (arith, y))
      (ground (arith, long, fits, short, some_text)) same (ground (arith, long, some_text))
  where
    all : (a b c d : Bool) → a ≡ true → b ≡ true → c ≡ true → d ≡ true → (a && b && c && d) ≡ true
    all a b c d e f g h = rw (e, f, g, h) refl

pub same_size : (s : List ℕ) (k size : ℕ) → smbios_struct_size s ≡ ok k → Fits s size → k ≡ size
same_size s k size e f = let p : ok k ≡ ok size = sym e ∙ Fits-size s size f in cc p

-- What is not here is in the structures behind.
pub Found-behind :
    {count n : ℕ} {t : List ℕ} (k : ℕ) (s : List ℕ)
    → smbios_struct_size s ≡ ok k
    → is_config k s ≡ false
    → Found count n s t
    → Found count (suc n) (drop k s) t
Found-behind k s z q (here {size = size} {t = t} c f y e m) =
    let found : is_config k s ≡ true =
      ap (λ j. is_config j s) (same_size s k size z f) ∙ config-text size s t y e m in
    absurd (cc (q, found))
Found-behind k s z q (later {size = size} c f y r) = rw (same_size s k size z f) r

drop-more : (k : ℕ) (u : List ℕ) → k < length u → drop k u ≢ []
drop-more k [] l = absurd (omega (arith, l))
drop-more zero (c ∷ u) l = λ e. cc
drop-more (suc k) (c ∷ u) l = drop-more k u (omega (arith, l))

-- What stands at a structure that is a configuration.
pub config-Found :
    (count n size : ℕ) (s : List ℕ)
    → Counted count n
    → Fits s size
    → is_config size s ≡ true
    → Found count n s (drop 14 (struct_text size s))
config-Found count n size s c f q =
    let text = struct_text size s in
    let p =
      parts (get_or s 0 0 == 11) (ltb 14 (size - struct_length s))
        (is_equal (strncmp text config_prefix 14)) (ltb 14 (length text)) q in
    here c f (ground (arith, p.0)) (strncmp-prefix text config_prefix 14 (omega arith) p.1)
      (drop-more 14 text (ground (arith, p.2)))
  where
    parts : (a b c d : Bool) → (a && b && c && d) ≡ true → (a ≡ true) × (c ≡ true) × (d ≡ true)
    parts true true true true h = (refl, refl, refl)
    parts true true true false h = cc
    parts true true false d h = cc
    parts true false c d h = cc
    parts false b c d h = cc
