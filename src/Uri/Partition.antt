-- ===== src/Uri/Partition.antt =====
-- parse_bios_partition() of common/lib/uri.c.
use limine_eucleia.Prelude.{
  ℕ, ◌≤◌, ◌||◌, Option, none, some, List, [], ◌∷◌, arith, ltb, ◌==◌, if◌then◌else◌, Result, ok,
  panic, ◌>>=◌, Ends, Ends-if, Ends-bind,
}
use limine_eucleia.Text.Number.{strtoui}
use limine_eucleia.Uri.Resolve.{Split, prepend}

unfoldable pub split_colon : List ℕ → Split
split_colon [] = none
split_colon (c ∷ s) = let rest = split_colon s in if c == b':' then some ([], s) else prepend c rest

abbrev pub drive_number : List ℕ → Result ℕ
drive_number [] = panic
drive_number (c ∷ s) =
    let val = (strtoui (c ∷ s) 10).0 in if ltb val 1 || ltb 256 val then panic else ok val

abbrev pub partition_number : (drive : ℕ) → List ℕ → Result (Option (ℕ × ℕ))
partition_number drive s =
    let val = (strtoui s 10).0 in if ltb 256 val then panic else ok (some (drive, val))

abbrev pub at_colon : Split → Result (Option (ℕ × ℕ))
at_colon none = ok none
at_colon (some p) = drive_number p.0 >>= λ drive. partition_number drive p.1

-- The drive and the partition; `ok none` is false.
unfoldable pub parse_bios_partition : List ℕ → Result (Option (ℕ × ℕ))
parse_bios_partition loc = at_colon (split_colon loc)

-- What the numbers are to be.
abbrev pub InBios : Option (ℕ × ℕ) → Type 0
InBios none = Unit
InBios (some p) = (1 ≤ p.0) × (p.0 ≤ 256) × (p.1 ≤ 256)

drive_number-bounds : (s : List ℕ) → Ends (drive_number s) (λ n. (1 ≤ n) × (n ≤ 256))
drive_number-bounds [] = tt
drive_number-bounds (c ∷ s) =
    let val = (strtoui (c ∷ s) 10).0 in
    Ends-if (ltb val 1 || ltb 256 val) panic (ok val) (λ n. (1 ≤ n) × (n ≤ 256)) (λ q. tt)
      (λ q. (ground (arith, q), ground (arith, q)))

partition_number-InBios :
    (n : ℕ) (s : List ℕ) → (1 ≤ n) × (n ≤ 256) → Ends (partition_number n s) InBios
partition_number-InBios n s h =
    let val = (strtoui s 10).0 in
    Ends-if (ltb 256 val) panic (ok (some (n, val))) InBios (λ q. tt)
      (λ q. (h.0, h.1, ground (arith, q)))

at_colon-InBios : (p : Split) → Ends (at_colon p) InBios
at_colon-InBios none = tt
at_colon-InBios (some p) =
    Ends-bind (drive_number p.0) (λ n. partition_number n p.1) (λ n. (1 ≤ n) × (n ≤ 256)) InBios
      (drive_number-bounds p.0) (λ n h. partition_number-InBios n p.1 h)

-- parse_bios_partition() comes to an end on every text, by a panic, with false, or with a drive
-- from 1 to 256 and a partition of at most 256.
pub parse_bios_partition-InBios : (s : List ℕ) → Ends (parse_bios_partition s) InBios
unfolding parse_bios_partition
parse_bios_partition-InBios s = at_colon-InBios (split_colon s)
