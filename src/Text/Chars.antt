-- ===== src/Text/Chars.antt =====
-- The character tests of common/lib/libc.s2.c and the digits of common/lib/misc.s2.c.
use limine_eucleia.Prelude.{
  ℕ, ◌+◌, ◌-◌, Bool, ◌&&◌, ◌||◌, Option, none, some, leb, ◌==◌, if◌then◌else◌,
}

unfoldable pub isprint : ℕ → Bool
isprint c = leb 0x20 c && leb c 0x7e

unfoldable pub isspace : ℕ → Bool
isspace c = (leb 9 c && leb c 0xd) || c == 0x20

unfoldable pub isalpha : ℕ → Bool
isalpha c = (leb b'a' c && leb c b'z') || (leb b'A' c && leb c b'Z')

unfoldable pub isdigit : ℕ → Bool
isdigit c = leb b'0' c && leb c b'9'

unfoldable pub toupper : ℕ → ℕ
toupper c = if leb b'a' c && leb c b'z' then c - 0x20 else c

unfoldable pub tolower : ℕ → ℕ
tolower c = if leb b'A' c && leb c b'Z' then c + 0x20 else c

-- `none` is the result -1.
unfoldable pub digit_to_int : ℕ → Option ℕ
digit_to_int c =
    if leb b'a' c && leb c b'f'
    then some (c - b'a' + 10)
    else if leb b'A' c && leb c b'F'
    then some (c - b'A' + 10)
    else if leb b'0' c && leb c b'9'
    then some (c - b'0')
    else none
