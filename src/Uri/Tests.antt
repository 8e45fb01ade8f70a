-- ===== src/Uri/Tests.antt =====
-- Runs of the URI code, and its theorems at concrete inputs.
use limine_eucleia.Prelude.{
  ℕ, false, none, some, List, [], ◌∷◌, ◌≡◌, refl, arith, replicate, if◌then◌else◌, ok, panic,
}
use limine_eucleia.Uri.Resolve.{
  Uri, split_resource, split_root, split_hash, all_hexadecimal, uri_resolve,
}
use limine_eucleia.Uri.Composed.{uri_text, uri_resolve-uri_text}
use limine_eucleia.Uri.Partition.{split_colon, parse_bios_partition}
use limine_eucleia.Uri.Dispatch.{Volumes, uri_odd_dispatch, dispatch, open_raw}
use limine_eucleia.Uri.Opened.{hdd_uri, open_raw-hdd}
use limine_eucleia.Text.Numeral.{digit_char, value}
use limine_eucleia.Text.Strings.{strcmp}
use limine_eucleia.Text.Number.{strtoui, strtoui_loop}
use limine_eucleia.Text.Chars.{digit_to_int}

-- "boot(1):/k" with a hash of zeros.
abbrev kernel : Uri
kernel = record {
  resource = b'b' ∷ b'o' ∷ b'o' ∷ b't' ∷ [];
  root = b'1' ∷ [];
  path = b'k' ∷ [];
  hash = some (replicate 128 b'0');
}

uri_resolve-uri_text_example : uri_resolve (uri_text kernel) ≡ ok (some kernel)
unfolding all_hexadecimal
uri_resolve-uri_text_example =
    uri_resolve-uri_text kernel ((refl, (refl, (refl, (refl, tt)))), (refl, tt), tt, (refl, refl))
      (omega arith)

-- "a(b):/c#d", whose hash is too short.
short_hash : uri_resolve (b'a' ∷ b'(' ∷ b'b' ∷ b')' ∷ b':' ∷ b'/' ∷ b'c' ∷ b'#' ∷ b'd' ∷ []) ≡ panic
unfolding uri_resolve split_resource split_root split_hash
short_hash = refl

-- "2:1".
partition-run : parse_bios_partition (b'2' ∷ b':' ∷ b'1' ∷ []) ≡ ok (some (2, 1))
unfolding parse_bios_partition split_colon strtoui strtoui_loop digit_to_int
partition-run = refl

-- Volumes by their coordinates, and files as their volume with their path.
abbrev disks : Volumes (ℕ × ℕ) (List ℕ)
disks = record {
  by_coord = λ optical drive partition. if optical then none else some (drive, partition);
  by_guid = λ guid. none;
  by_fslabel = λ fslabel. none;
  fopen = λ v path. some (v.0 ∷ v.1 ∷ path);
  tftp_open = λ v root path. none;
  boot_volume = (1, 1);
  pxe = λ v. false;
  is_optical = λ v. false;
  index = λ v. v.0;
  partition = λ v. v.1;
}

-- "hdd(12:3):/k".
open_raw-hdd_example :
    open_raw disks (uri_text (hdd_uri (1 ∷ 2 ∷ []) (3 ∷ []) (b'k' ∷ []) none))
    ≡ ok (some (12 ∷ 3 ∷ b'k' ∷ []))
unfolding value digit_char
open_raw-hdd_example =
    open_raw-hdd disks (1 ∷ 2 ∷ []) (3 ∷ []) (b'k' ∷ []) none (omega arith, (omega arith, tt))
      (omega arith, tt) (omega arith) (omega arith) (omega arith)
      ((refl, (refl, (refl, tt))), (refl, (refl, (refl, (refl, tt)))), tt, (refl, tt)) (omega arith)

optical_run :
    open_raw disks (b'o' ∷ b'd' ∷ b'd' ∷ b'(' ∷ b'1' ∷ b':' ∷ b'1' ∷ b')' ∷ b':' ∷ b'/' ∷ b'k' ∷ [])
    ≡ ok none
unfolding open_raw dispatch uri_odd_dispatch strcmp uri_resolve split_resource split_root split_hash
    parse_bios_partition split_colon strtoui strtoui_loop digit_to_int
optical_run = refl
