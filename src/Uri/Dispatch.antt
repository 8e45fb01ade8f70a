-- ===== src/Uri/Dispatch.antt =====
-- The dispatch of a URI to a volume in uri_open() of common/lib/uri.c, up to the open file. Volumes and
-- files are parameters.
use limine_eucleia.Prelude.{
  ℕ, Bool, true, false, Option, none, some, List, [], ◌∷◌, ltb, ◌==◌, if◌then◌else◌, Result, ok,
  panic, ◌>>=◌,
}
use limine_eucleia.Text.Strings.{strcmp}
use limine_eucleia.Text.Number.{strtoui, inet_pton}
use limine_eucleia.Text.Guid.{string_to_guid_be, string_to_guid_mixed}
use limine_eucleia.Config.Value.{is_equal}
use limine_eucleia.Uri.Resolve.{Uri, uri_resolve}
use limine_eucleia.Uri.Partition.{parse_bios_partition}

-- What the dispatch asks of the volumes and the file systems.
pub record Volumes (V F : Type 0) : Type 0 where
  pub by_coord : (optical : Bool) (drive partition : ℕ) → Option V
  pub by_guid : List ℕ → Option V
  pub by_fslabel : List ℕ → Option V
  pub fopen : V → (path : List ℕ) → Option F
  pub tftp_open : V → (root path : List ℕ) → Option F
  pub boot_volume : V
  pub pxe : V → Bool
  pub is_optical : V → Bool
  pub index : V → ℕ
  pub partition : V → ℕ

abbrev pub is_named : (resource name : List ℕ) → Bool
is_named resource name = is_equal (strcmp resource name)

-- The resource behind the `$` of a compressed file.
abbrev pub plain_resource : List ℕ → List ℕ
plain_resource [] = []
plain_resource (c ∷ s) = if c == b'$' then s else c ∷ s

module _ {V F : Type 0} (vs : Volumes V F) where
  abbrev pub open_on : Option V → (path : List ℕ) → Option F
  open_on none path = none
  open_on (some v) path = vs.fopen v path

  abbrev pub open_coord : (optical : Bool) (path : List ℕ) → Option (ℕ × ℕ) → Result (Option F)
  open_coord optical path none = ok none
  open_coord optical path (some p) = ok (open_on (vs.by_coord optical p.0 p.1) path)

  unfoldable pub uri_hdd_dispatch : (loc path : List ℕ) → Result (Option F)
  uri_hdd_dispatch loc path = parse_bios_partition loc >>= open_coord false path

  unfoldable pub uri_odd_dispatch : (loc path : List ℕ) → Result (Option F)
  uri_odd_dispatch loc path = parse_bios_partition loc >>= open_coord true path

  abbrev pub open_guid : (path : List ℕ) → Option (List ℕ) → Option F
  open_guid path none = none
  open_guid path (some guid) = open_on (vs.by_guid guid) path

  abbrev pub open_mixed : (guid_str path : List ℕ) → Option V → Option F
  open_mixed guid_str path none = open_guid path (string_to_guid_mixed guid_str)
  open_mixed guid_str path (some v) = vs.fopen v path

  abbrev pub open_be : (guid_str path : List ℕ) → Option (List ℕ) → Option F
  open_be guid_str path none = none
  open_be guid_str path (some guid) = open_mixed guid_str path (vs.by_guid guid)

  unfoldable pub uri_guid_dispatch : (guid_str path : List ℕ) → Result (Option F)
  uri_guid_dispatch guid_str path = ok (open_be guid_str path (string_to_guid_be guid_str))

  unfoldable pub uri_fslabel_dispatch : (fslabel path : List ℕ) → Result (Option F)
  uri_fslabel_dispatch fslabel path = ok (open_on (vs.by_fslabel fslabel) path)

  abbrev pub open_tftp : (root path : List ℕ) → Option (List ℕ) → Result (Option F)
  open_tftp root path none = panic
  open_tftp root path (some ip) = ok (vs.tftp_open vs.boot_volume root path)

  unfoldable pub uri_tftp_dispatch : (root path : List ℕ) → Result (Option F)
  uri_tftp_dispatch [] path = ok (vs.tftp_open vs.boot_volume [] path)
  uri_tftp_dispatch (c ∷ root) path = open_tftp (c ∷ root) path (inet_pton (c ∷ root))

  abbrev pub boot_partition : (s_part : List ℕ) → Result ℕ
  boot_partition [] = ok (vs.partition vs.boot_volume)
  boot_partition (c ∷ s) = let val = (strtoui (c ∷ s) 10).0 in if ltb 256 val then panic else ok val

  unfoldable pub uri_boot_dispatch : (s_part path : List ℕ) → Result (Option F)
  uri_boot_dispatch s_part path =
      if vs.pxe vs.boot_volume
      then uri_tftp_dispatch s_part path
      else boot_partition s_part >>= λ partition. ok (
          open_on (vs.by_coord (vs.is_optical vs.boot_volume) (vs.index vs.boot_volume) partition)
            path)

  unfoldable pub dispatch : (resource root path : List ℕ) → Result (Option F)
  dispatch resource root path =
      if is_named resource (b'h' ∷ b'd' ∷ b'd' ∷ [])
      then uri_hdd_dispatch root path
      else if is_named resource (b'o' ∷ b'd' ∷ b'd' ∷ [])
      then uri_odd_dispatch root path
      else if is_named resource (b'b' ∷ b'o' ∷ b'o' ∷ b't' ∷ [])
      then uri_boot_dispatch root path
      else if is_named resource (b'g' ∷ b'u' ∷ b'i' ∷ b'd' ∷ [])
      then uri_guid_dispatch root path
      else if is_named resource (b'u' ∷ b'u' ∷ b'i' ∷ b'd' ∷ [])
      then uri_guid_dispatch root path
      else if is_named resource (b'f' ∷ b's' ∷ b'l' ∷ b'a' ∷ b'b' ∷ b'e' ∷ b'l' ∷ [])
      then uri_fslabel_dispatch root path
      else if is_named resource (b't' ∷ b'f' ∷ b't' ∷ b'p' ∷ [])
      then uri_tftp_dispatch root path
      else panic

  abbrev pub open_parts : Option Uri → Result (Option F)
  open_parts none = ok none
  open_parts (some u) = dispatch (plain_resource u.resource) u.root u.path

  -- The file as it is opened, before it is checked, decompressed and read.
  unfoldable pub open_raw : (uri : List ℕ) → Result (Option F)
  open_raw uri = uri_resolve uri >>= open_parts
