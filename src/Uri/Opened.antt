-- ===== src/Uri/Opened.antt =====
-- The dispatch of common/lib/uri.c on the text of a URI.
use limine_eucleia.Prelude.{
  ℕ, ◌≤◌, ◌<◌, ◌≡◌, ◌∙◌, ap, sym, refl, false, ◌||◌, Option, some, List, [], ◌∷◌, ◌++◌, map, arith,
  ltb, ◌==◌, if◌then◌else◌, length, Result, ok, panic, ◌>>=◌,
}
use mathlib.Core.List.{append-nil}
use limine_eucleia.Text.Strings.{strcmp}
use limine_eucleia.Text.Number.{strtoui}
use limine_eucleia.Text.Numeral.{digit_char, value, Digits, strtoui-spelled}
use limine_eucleia.Uri.Resolve.{Uri, prepend}
use limine_eucleia.Uri.Composed.{Parts, uri_text, uri_resolve-uri_text}
use limine_eucleia.Uri.Partition.{
  split_colon, drive_number, partition_number, at_colon, parse_bios_partition,
}
use limine_eucleia.Uri.Dispatch.{
  Volumes, open_on, open_coord, uri_hdd_dispatch, dispatch, open_parts, open_raw,
}

abbrev pub digits : List ℕ → List ℕ
digits ds = map digit_char ds

digit-colon : (d : ℕ) → d < 10 → (digit_char d == b':') ≡ false
unfolding digit_char
digit-colon d h = ground (arith, h)

split_colon-digits :
    (ds s : List ℕ) → Digits 10 ds → split_colon (digits ds ++ b':' ∷ s) ≡ some (digits ds, s)
unfolding split_colon
split_colon-digits [] s h = refl
split_colon-digits (d ∷ ds) s h =
    rw (digit-colon d h.0) (ap (prepend (digit_char d)) (split_colon-digits ds s h.1))

read :
    (ds : List ℕ) → Digits 10 ds → value 10 0 ds ≤ 256 → (strtoui (digits ds) 10).0 ≡ value 10 0 ds
read ds h l =
    ap (λ t. (strtoui t 10).0) (sym (append-nil (digits ds)))
    ∙ ap (λ (r : ℕ × List ℕ). r.0)
        (strtoui-spelled 10 ds [] (omega arith) h (omega (arith, l)) refl)

fits : (n : ℕ) → 1 ≤ n → n ≤ 256 → (ltb n 1 || ltb 256 n) ≡ false
fits n m l = ground (arith, m, l)

within : (n : ℕ) → n ≤ 256 → ltb 256 n ≡ false
within n l = ground (arith, l)

-- The text of a drive and a partition.
abbrev pub bios_text : (ds es : List ℕ) → List ℕ
bios_text ds es = digits ds ++ b':' ∷ digits es

drive-ok :
    (v n : ℕ)
    → v ≡ n
    → 1 ≤ n
    → n ≤ 256
    → ◌≡◌ {A = Result ℕ} (if ltb v 1 || ltb 256 v then panic else ok v) (ok n)
drive-ok v n e m l =
    ap (λ x. if ltb x 1 || ltb 256 x then panic else ok x) e
    ∙ ap (λ t. if t then panic else ok n) (fits n m l)

partition-ok :
    (c v n : ℕ)
    → v ≡ n
    → n ≤ 256
    → ◌≡◌ {A = Result (Option (ℕ × ℕ))}
        (if ltb 256 v then panic else ok (some (c, v)))
        (ok (some (c, n)))
partition-ok c v n e l =
    ap (λ x. if ltb 256 x then panic else ok (some (c, x))) e
    ∙ ap (λ t. if t then panic else ok (some (c, n))) (within n l)

drive_number-digits :
    (ds : List ℕ)
    → Digits 10 ds
    → 1 ≤ value 10 0 ds
    → value 10 0 ds ≤ 256
    → drive_number (digits ds) ≡ ok (value 10 0 ds)
unfolding value
drive_number-digits [] h m l = absurd (omega (arith, m))
drive_number-digits (d ∷ ds) h m l =
    drive-ok (strtoui (digits (d ∷ ds)) 10).0 (value 10 0 (d ∷ ds)) (read (d ∷ ds) h l) m l

parse_bios_partition-bios_text :
    (ds es : List ℕ)
    → Digits 10 ds
    → Digits 10 es
    → 1 ≤ value 10 0 ds
    → value 10 0 ds ≤ 256
    → value 10 0 es ≤ 256
    → parse_bios_partition (bios_text ds es) ≡ ok (some (value 10 0 ds, value 10 0 es))
unfolding parse_bios_partition
parse_bios_partition-bios_text ds es h k m l n =
    ap at_colon (split_colon-digits ds (digits es) h)
    ∙ ap (λ r. r >>= λ drive. partition_number drive (digits es)) (drive_number-digits ds h m l)
    ∙ partition-ok (value 10 0 ds) (strtoui (digits es) 10).0 (value 10 0 es) (read es k n) n

abbrev pub hdd : List ℕ
hdd = b'h' ∷ b'd' ∷ b'd' ∷ []

abbrev pub hdd_uri : (ds es path : List ℕ) (hash : Option (List ℕ)) → Uri
hdd_uri ds es path hash = record {
  resource = hdd;
  root = bios_text ds es;
  path = path;
  hash = hash;
}

module _ {V F : Type 0} (vs : Volumes V F) where
  dispatch-hdd : (root path : List ℕ) → dispatch vs hdd root path ≡ uri_hdd_dispatch vs root path
  unfolding dispatch strcmp
  dispatch-hdd root path = refl

  -- A URI hdd(drive:partition):/path, its numbers spelled by decimal digits, the drive from 1 to
  -- 256 and the partition at most 256, with a path and a hash as uri_resolve() reads them and a
  -- text shorter than 4096 characters, is opened as the path on the hard disk volume with these
  -- coordinates, if there is one.
  pub open_raw-hdd :
      (ds es path : List ℕ) (hash : Option (List ℕ))
      → Digits 10 ds
      → Digits 10 es
      → 1 ≤ value 10 0 ds
      → value 10 0 ds ≤ 256
      → value 10 0 es ≤ 256
      → Parts (hdd_uri ds es path hash)
      → length (uri_text (hdd_uri ds es path hash)) < 4096
      → open_raw vs (uri_text (hdd_uri ds es path hash))
        ≡ ok (open_on vs (vs.by_coord false (value 10 0 ds) (value 10 0 es)) path)
  unfolding open_raw uri_hdd_dispatch
  open_raw-hdd ds es path hash h k m l n p q =
      ap (λ r. r >>= open_parts vs) (uri_resolve-uri_text (hdd_uri ds es path hash) p q)
      ∙ dispatch-hdd (bios_text ds es) path
      ∙ ap (λ r. r >>= open_coord vs false path) (parse_bios_partition-bios_text ds es h k m l n)
