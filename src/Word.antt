-- ===== src/Word.antt =====
-- The 64-bit arithmetic of common/lib/misc.h: CHECKED_ADD, CHECKED_MUL, DIV_ROUNDUP, ALIGN_UP and
-- ALIGN_DOWN at uint64_t (and size_t of a 64-bit target), and the plain operators, which wrap.
use limine_eucleia.Prelude.{ℕ, ◌+◌, ◌-◌, ◌*◌, ◌/◌, ◌%◌, ◌^◌, Option, none, some, ltb, if◌then◌else◌}
use mathlib.Core.Option

abbrev pub word : ℕ
word = 2 ^ 64

abbrev pub add64 : ℕ → ℕ → ℕ
add64 a b = (a + b) % word

abbrev pub sub64 : ℕ → ℕ → ℕ
sub64 a b = (a + word - b) % word

-- `none` is the `onerror` argument of the macro.
abbrev pub checked_add : ℕ → ℕ → Option ℕ
checked_add a b = if ltb (a + b) word then some (a + b) else none

abbrev pub checked_mul : ℕ → ℕ → Option ℕ
checked_mul a b = if ltb (a * b) word then some (a * b) else none

unfoldable pub div_roundup : ℕ → ℕ → Option ℕ
div_roundup a b = Option.map (λ s. s / b) (checked_add a (sub64 b 1))

-- The macro's multiplication is not checked: it wraps.
unfoldable pub align_up : ℕ → ℕ → Option ℕ
unfolding div_roundup
align_up x a = Option.map (λ q. q * a % word) (div_roundup x a)

unfoldable pub align_down : ℕ → ℕ → ℕ
align_down x a = x / a * a % word
