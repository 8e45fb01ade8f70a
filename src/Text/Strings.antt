-- ===== src/Text/Strings.antt =====
-- The string functions of common/lib/libc.s2.c and common/lib/libc.c.
use Prim.Native.Nat.{Ordering, lt, eq, gt}
use limine_eucleia.Prelude.{
  ℕ, zero, suc, Option, none, some, List, [], ◌∷◌, ltb, ◌==◌, if◌then◌else◌,
}
use limine_eucleia.Text.Chars.{tolower}
use mathlib.Core.Option

-- The results -1, 0 and 1 are `lt`, `eq` and `gt`.
unfoldable pub strcmp : List ℕ → List ℕ → Ordering
strcmp [] [] = eq
strcmp [] (d ∷ b) = lt
strcmp (c ∷ a) [] = gt
strcmp (c ∷ a) (d ∷ b) = if c == d then strcmp a b else if ltb c d then lt else gt

unfoldable pub strcasecmp : List ℕ → List ℕ → Ordering
strcasecmp [] [] = eq
strcasecmp [] (d ∷ b) = lt
strcasecmp (c ∷ a) [] = gt
strcasecmp (c ∷ a) (d ∷ b) =
    if tolower c == tolower d
    then strcasecmp a b
    else if ltb (tolower c) (tolower d)
    then lt
    else gt

unfoldable pub strncmp : List ℕ → List ℕ → (n : ℕ) → Ordering
strncmp a b zero = eq
strncmp [] [] (suc n) = eq
strncmp [] (d ∷ b) (suc n) = lt
strncmp (c ∷ a) [] (suc n) = gt
strncmp (c ∷ a) (d ∷ b) (suc n) = if c == d then strncmp a b n else if ltb c d then lt else gt

unfoldable pub strncasecmp : List ℕ → List ℕ → (n : ℕ) → Ordering
strncasecmp a b zero = eq
strncasecmp [] [] (suc n) = eq
strncasecmp [] (d ∷ b) (suc n) = lt
strncasecmp (c ∷ a) [] (suc n) = gt
strncasecmp (c ∷ a) (d ∷ b) (suc n) =
    if tolower c == tolower d
    then strncasecmp a b n
    else if ltb (tolower c) (tolower d)
    then lt
    else gt

unfoldable pub strlen : List ℕ → ℕ
strlen [] = 0
strlen (c ∷ s) = suc (strlen s)

unfoldable pub strnlen : List ℕ → (maxlen : ℕ) → ℕ
strnlen s zero = 0
strnlen [] (suc n) = 0
strnlen (c ∷ s) (suc n) = suc (strnlen s n)

-- The distance of the result from the start, in the first `n` bytes; `none` is NULL.
unfoldable pub memchr : List ℕ → (ch n : ℕ) → Option ℕ
memchr p ch zero = none
memchr [] ch (suc n) = none
memchr (c ∷ p) ch (suc n) = if c == ch then some 0 else Option.map suc (memchr p ch n)

-- For a character other than the terminator.
unfoldable pub strchr : List ℕ → (ch : ℕ) → Option ℕ
strchr [] ch = none
strchr (c ∷ s) ch = if c == ch then some 0 else Option.map suc (strchr s ch)

unfoldable pub strrchr : List ℕ → (ch : ℕ) → Option ℕ
strrchr [] ch = none
strrchr (c ∷ s) ch = elim (strrchr s ch) [
  | some i ↦ some (suc i)
  | none ↦ if c == ch then some 0 else none
]
