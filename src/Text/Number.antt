-- ===== src/Text/Number.antt =====
-- strtoui() of common/lib/misc.s2.c and inet_pton() of common/lib/libc.s2.c.
use limine_eucleia.Prelude.{
  ℕ, zero, suc, ◌-◌, Bool, Option, none, some, List, [], ◌∷◌, ltb, leb, ◌==◌, if◌then◌else◌, length,
}
use limine_eucleia.Word.{word, checked_add, checked_mul}
use limine_eucleia.Text.Chars.{digit_to_int}

abbrev pub uint64_max : ℕ
uint64_max = word - 1

-- The loop at a value `n`: what it returns, and `*end`.
unfoldable pub strtoui_loop : (base n : ℕ) → List ℕ → ℕ × List ℕ
strtoui_loop base n [] = (n, [])
strtoui_loop base n (c ∷ s) = elim (digit_to_int c) [
  | none ↦ (n, c ∷ s)
  | some d ↦ if leb base d then (n, c ∷ s) else elim (checked_mul n base) [
    | none ↦ (uint64_max, c ∷ s)
    | some mul_result ↦ elim (checked_add mul_result d) [
      | none ↦ (uint64_max, c ∷ s)
      | some n' ↦ strtoui_loop base n' s
    ]
  ]
]

unfoldable pub strtoui : List ℕ → (base : ℕ) → ℕ × List ℕ
strtoui s base = strtoui_loop base 0 s

-- `current == newcur`: the end is the start where no character was read.
abbrev pub nothing_read : (current newcur : List ℕ) → Bool
nothing_read current newcur = length current == length newcur

-- The delimiter behind an octet, with `more` octets to come; `none` is the result -1.
unfoldable pub delimiter : (more : ℕ) → List ℕ → Option (List ℕ)
delimiter zero [] = some []
delimiter zero (c ∷ s) = none
delimiter (suc more) [] = none
delimiter (suc more) (c ∷ s) = if c == b'.' then some s else none

-- An octet and its delimiter, once `value` and `newcur` are known.
unfoldable pub octet_of : (more : ℕ) (current : List ℕ) → ℕ × List ℕ → Option (ℕ × List ℕ)
octet_of more current (value, newcur) =
    if nothing_read current newcur then none else elim (delimiter more newcur) [
      | none ↦ none
      | some rest ↦ if ltb 255 value then none else some (value, rest)
    ]

unfoldable pub octet : (more : ℕ) → List ℕ → Option (ℕ × List ℕ)
unfolding strtoui octet_of
octet more current = octet_of more current (strtoui current 10)

unfoldable pub octets : (left : ℕ) → List ℕ → Option (List ℕ)
octets zero current = some []
octets (suc more) current = elim (octet more current) [
  | none ↦ none
  | some r ↦ elim (octets more r.1) [ none ↦ none | some rest ↦ some (r.0 ∷ rest) ]
]

-- The four bytes that are written.
unfoldable pub inet_pton : List ℕ → Option (List ℕ)
unfolding octets octet
inet_pton src = octets 4 src
