-- ===== src/Text/Guid.antt =====
-- common/lib/guid.c. A `struct guid` is the list of its 16 bytes in memory, on a little-endian
-- machine.
use limine_eucleia.Prelude.{
  ℕ, zero, suc, ◌+◌, ◌*◌, ◌/◌, ◌%◌, ◌^◌, Bool, true, false, ◌&&◌, ◌||◌, Option, none, some, List,
  [], ◌∷◌, ◌++◌, ◌==◌, if◌then◌else◌, take, drop, get_or,
}
use limine_eucleia.Text.Chars.{digit_to_int}
use limine_eucleia.Text.Numeral.{digit_char}

abbrev pub is_dash : ℕ → Bool
is_dash i = i == 8 || i == 13 || (i == 18 || i == 23)

unfoldable pub is_hex_digit : ℕ → Bool
is_hex_digit c = elim (digit_to_int c) [ none ↦ false | some d ↦ true ]

-- The loop at `i`; at the end of the list `s[i]` is the terminator.
unfoldable pub valid_from : (i : ℕ) → List ℕ → Bool
valid_from i [] = i == 36
valid_from i (c ∷ s) =
    let rest = valid_from (suc i) s in
    if i == 36 then false else if is_dash i then c == b'-' && rest else is_hex_digit c && rest

unfoldable pub is_valid_guid : List ℕ → Bool
is_valid_guid s = valid_from 0 s

-- The value of a digit that is_valid_guid() has let pass.
unfoldable pub digit_value : ℕ → ℕ
digit_value c = elim (digit_to_int c) [ none ↦ 0 | some d ↦ d ]

-- Two digits are a byte; its halves do not meet.
unfoldable pub pair_byte : (hi lo : ℕ) → ℕ
unfolding digit_value
pair_byte hi lo = digit_value hi * 16 + digit_value lo

-- From the last pair to the first; the bytes behind those written so far are `out`.
unfoldable pub le_cluster : List ℕ → (out : List ℕ) → List ℕ
le_cluster [] out = out
le_cluster (hi ∷ []) out = out
le_cluster (hi ∷ lo ∷ s) out = le_cluster s (pair_byte hi lo ∷ out)

unfoldable pub be_cluster : List ℕ → List ℕ
be_cluster [] = []
be_cluster (hi ∷ []) = []
be_cluster (hi ∷ lo ∷ s) = pair_byte hi lo ∷ be_cluster s

-- `len` characters from `s + at`.
abbrev pub cluster : (s : List ℕ) (at len : ℕ) → List ℕ
cluster s at len = take len (drop at s)

unfoldable pub string_to_guid_be : List ℕ → Option (List ℕ)
unfolding be_cluster
string_to_guid_be s =
    if is_valid_guid s
    then some (
        be_cluster (cluster s 0 8)
        ++ (be_cluster (cluster s 9 4)
            ++ (be_cluster (cluster s 14 4)
                ++ (be_cluster (cluster s 19 4) ++ be_cluster (cluster s 24 12)))))
    else none

unfoldable pub string_to_guid_mixed : List ℕ → Option (List ℕ)
unfolding be_cluster le_cluster
string_to_guid_mixed s =
    if is_valid_guid s
    then some (
        le_cluster (cluster s 0 8) []
        ++ (le_cluster (cluster s 9 4) []
            ++ (le_cluster (cluster s 14 4) []
                ++ (be_cluster (cluster s 19 4) ++ be_cluster (cluster s 24 12)))))
    else none

-- The last `len` digits.
unfoldable pub uint_to_hex : (num len : ℕ) → List ℕ
uint_to_hex num zero = []
uint_to_hex num (suc len) = digit_char (num / 16 ^ len % 16) ∷ uint_to_hex num len

-- The members `a`, `b` and `c`.
abbrev pub guid_a : List ℕ → ℕ
guid_a g = get_or g 0 0 + get_or g 1 0 * 0x100 + get_or g 2 0 * 0x1_0000 + get_or g 3 0 * 0x100_0000

abbrev pub guid_b : List ℕ → ℕ
guid_b g = get_or g 4 0 + get_or g 5 0 * 0x100

abbrev pub guid_c : List ℕ → ℕ
guid_c g = get_or g 6 0 + get_or g 7 0 * 0x100

unfoldable pub guid_to_string : List ℕ → List ℕ
guid_to_string g =
    uint_to_hex (guid_a g) 8
    ++ (b'-'
        ∷ (uint_to_hex (guid_b g) 4
            ++ (b'-'
                ∷ (uint_to_hex (guid_c g) 4
                    ++ (b'-'
                        ∷ (uint_to_hex (get_or g 8 0) 2
                            ++ (uint_to_hex (get_or g 9 0) 2
                                ++ (b'-'
                                    ∷ (uint_to_hex (get_or g 10 0) 2
                                        ++ (uint_to_hex (get_or g 11 0) 2
                                            ++ (uint_to_hex (get_or g 12 0) 2
                                                ++ (uint_to_hex (get_or g 13 0) 2
                                                    ++ (uint_to_hex (get_or g 14 0) 2
                                                        ++ uint_to_hex (get_or g 15 0)
                                                            2)))))))))))))
