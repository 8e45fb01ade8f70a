-- ===== src/Uri/Resolve.antt =====
-- uri_resolve() of common/lib/uri.c.
use limine_eucleia.Prelude.{
  ℕ, ◌+◌, Bool, true, not, ◌&&◌, ◌||◌, Option, none, some, List, [], ◌∷◌, ltb, leb, ◌==◌,
  if◌then◌else◌, length, drop, get_or, Result, ok, panic,
}

-- A text split in two; the character at which it was split is in neither part.
abbrev pub Split : Type 0
Split = Option (List ℕ × List ℕ)

abbrev pub prepend : ℕ → Split → Split
prepend c none = none
prepend c (some p) = some (c ∷ p.0, p.1)

unfoldable pub split_resource : List ℕ → Split
split_resource [] = none
split_resource (c ∷ s) =
    let rest = split_resource s in if c == b'(' then some ([], s) else prepend c rest

abbrev pub ends_root : List ℕ → Bool
ends_root s = get_or s 0 0 == b')' && get_or s 1 0 == b':' && get_or s 2 0 == b'/'

unfoldable pub split_root : List ℕ → Split
split_root [] = none
split_root (c ∷ s) =
    let rest = split_root s in
    if ltb (length (c ∷ s)) 3
    then none
    else if ends_root (c ∷ s)
    then some ([], drop 2 s)
    else prepend c rest

abbrev pub or_here : ℕ → List ℕ → Split → Split
or_here c s none = if c == b'#' then some ([], s) else none
or_here c s (some p) = some (c ∷ p.0, p.1)

-- At the last `#`.
unfoldable pub split_hash : List ℕ → Split
split_hash [] = none
split_hash (c ∷ s) = or_here c s (split_hash s)

abbrev pub is_hexadecimal : ℕ → Bool
is_hexadecimal c =
    (leb b'0' c && leb c b'9') || (leb b'a' c && leb c b'f') || (leb b'A' c && leb c b'F')

unfoldable pub all_hexadecimal : List ℕ → Bool
all_hexadecimal [] = true
all_hexadecimal (c ∷ s) = is_hexadecimal c && all_hexadecimal s

pub record Uri : Type 0 where
  pub resource : List ℕ
  pub root : List ℕ
  pub path : List ℕ
  pub hash : Option (List ℕ)

-- The path and the hash.
abbrev pub hashed : (resource root path : List ℕ) → Split → Result (Option Uri)
hashed resource root path none =
    ok (some (record { resource = resource; root = root; path = path; hash = none }))
hashed resource root path (some p) =
    if not (length p.1 == 128)
    then panic
    else if not (all_hexadecimal p.1)
    then panic
    else ok (some (record { resource = resource; root = root; path = p.0; hash = some p.1 }))

abbrev pub at_path : (resource root : List ℕ) → List ℕ → Result (Option Uri)
at_path resource root [] = ok none
at_path resource root (c ∷ s) = hashed resource root (c ∷ s) (split_hash (c ∷ s))

abbrev pub at_root : (resource : List ℕ) → Split → Result (Option Uri)
at_root resource none = ok none
at_root resource (some p) = at_path resource p.0 p.1

abbrev pub at_resource : Split → Result (Option Uri)
at_resource none = ok none
at_resource (some p) = at_root p.0 (split_root p.1)

-- URI_BUF_SIZE.
abbrev pub uri_buf_size : ℕ
uri_buf_size = 4096

-- `ok none` is false, and `panic` a call of panic().
unfoldable pub uri_resolve : List ℕ → Result (Option Uri)
uri_resolve uri =
    if ltb uri_buf_size (length uri + 1) then panic else at_resource (split_resource uri)
