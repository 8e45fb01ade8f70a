-- ===== src/Memmap/Alloc/Info.antt =====
-- mmap_get_info() of common/mm/pmm.s2.c: the usable memory from address 0 and from 1 MiB.
use limine_eucleia.Prelude.{
  ℕ, zero, suc, ◌+◌, ◌-◌, ◌*◌, Bool, false, not, ◌&&◌, ◌||◌, none, some, List, [], ◌∷◌, ltb, leb,
  ◌==◌, if◌then◌else◌, length, Result, ok, out_of_fuel, ◌>>=◌,
}
use limine_eucleia.Word.{checked_add}
use limine_eucleia.Memmap.Entry.{MemmapEntry, usable}

-- `lower_end`, `upper_end` and `progress`.
pub record Frontier : Type 0 where
  pub lower : ℕ
  pub upper : ℕ
  pub progress : Bool

pub record Meminfo : Type 0 where
  pub lowermem : ℕ
  pub uppermem : ℕ

abbrev pub one_mib : ℕ
one_mib = 0x10_0000

abbrev pub moves : (base top end : ℕ) → Bool
moves base top end = leb base end && ltb end top

abbrev pub advance : (base top end : ℕ) → ℕ
advance base top end = if moves base top end then top else end

-- The body of the inner loop.
unfoldable pub extend_entry : MemmapEntry → Frontier → Frontier
extend_entry e f = if not (e.type == usable) then f else elim (checked_add e.base e.length) [
  | none ↦ f
  | some top ↦ record {
    lower = advance e.base top f.lower;
    upper = advance e.base top f.upper;
    progress = moves e.base top f.upper || (moves e.base top f.lower || f.progress);
  }
]

unfoldable pub extend : List MemmapEntry → Frontier → Frontier
extend [] f = f
extend (e ∷ m) f = extend m (extend_entry e f)

-- The rounds of `do … while (progress)`.
unfoldable pub extend_loop : (fuel : ℕ) (m : List MemmapEntry) (lower upper : ℕ) → Result Frontier
extend_loop zero m lower upper = out_of_fuel
extend_loop (suc n) m lower upper =
    let f = extend m (record { lower = lower; upper = upper; progress = false }) in
    let rest = extend_loop n m f.lower f.upper in if f.progress then rest else ok f

unfoldable pub mmap_get_info : List MemmapEntry → Result Meminfo
mmap_get_info m = extend_loop (2 * length m + 1) m 0 one_mib >>= λ f. ok (record {
  lowermem = if ltb one_mib f.lower then one_mib else f.lower;
  uppermem = f.upper - one_mib;
})
