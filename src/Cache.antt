-- ===== src/Cache.antt =====
-- internal/cache/cache.go: the names of cached targets and of their files, and where they lie below
-- the data directory.
pub mod Inside
pub mod Manifest
pub mod Fetched
pub mod Tests
use pxe_beacon.Base.{
  ℕ, ◌==◌, Bool, true, false, not, ◌&&◌, ◌||◌, Option, none, some, List, [], ◌∷◌, ◌++◌, map,
  if◌then◌else◌, is_empty, is_some, leb, all_of, Text, bytes, text_lt, has_prefix, split_on, Map,
  lookup, sort_by,
}
use pxe_beacon.FilePaths.{clean, join}

-- `TargetSpec`; `iso_path` is a map from the destinations to the paths in the image.
pub record TargetSpec : Type 0 where
  pub name : Text
  pub iso_url : Text
  pub iso_path : Map Text

abbrev pub keys_of : Map Text → List Text
keys_of [] = []
keys_of ((k, v) ∷ m) = k ∷ keys_of m

-- `Dests`
unfoldable pub dests : TargetSpec → List Text
dests s = sort_by text_lt (keys_of s.iso_path)

abbrev casper : Map Text
casper =
    (bytes "vmlinuz", bytes "/casper/vmlinuz")
    ∷ (bytes "initrd", bytes "/casper/initrd")
    ∷ (bytes "filesystem.squashfs", bytes "/casper/ubuntu-server-minimal.squashfs")
    ∷ []

-- `Targets`
unfoldable pub targets : Map TargetSpec
targets =
    (
      bytes "ubuntu-22.04",
      record {
        name = bytes "ubuntu-22.04";
        iso_url = bytes "https://releases.ubuntu.com/22.04/ubuntu-22.04.5-live-server-amd64.iso";
        iso_path = casper;
      },
    )
    ∷ (
      bytes "ubuntu-24.04",
      record {
        name = bytes "ubuntu-24.04";
        iso_url = bytes "https://releases.ubuntu.com/24.04/ubuntu-24.04.4-live-server-amd64.iso";
        iso_path = casper;
      },
    )
    ∷ (
      bytes "systemrescue",
      record {
        name = bytes "systemrescue";
        iso_url =
            bytes
              "https://fastly-cdn.system-rescue.org/releases/13.00/systemrescue-13.00-amd64.iso";
        iso_path =
            (bytes "sysresccd/boot/x86_64/vmlinuz", bytes "/sysresccd/boot/x86_64/vmlinuz")
            ∷ (
              bytes "sysresccd/boot/x86_64/sysresccd.img",
              bytes "/sysresccd/boot/x86_64/sysresccd.img",
            )
            ∷ (bytes "sysresccd/x86_64/airootfs.sfs", bytes "/sysresccd/x86_64/airootfs.sfs")
            ∷ [];
      },
    )
    ∷ []

-- A character that a name may have. A byte of a character outside ASCII is none of these.
unfoldable pub is_name_byte : ℕ → Bool
is_name_byte r =
    r == b'-'
    || r == b'_'
    || r == b'.'
    || (leb b'0' r && leb r b'9')
    || (leb b'a' r && leb r b'z')
    || (leb b'A' r && leb r b'Z')

-- `safeTargetName`
unfoldable pub safe_target_name : Text → Bool
unfolding is_name_byte has_prefix
safe_target_name s = not (is_empty s || has_prefix s (bytes ".")) && all_of is_name_byte s

-- `safeAssetPath`
unfoldable pub safe_asset_path : Text → Bool
unfolding safe_target_name split_on
safe_asset_path s =
    not (is_empty s || has_prefix s (bytes "/")) && all_of safe_target_name (split_on b'/' s)

-- `filepath.Join` of a root and two texts that are not empty
unfoldable pub join_below : Text → Text → Text → Text
unfolding clean join
join_below [] target file = join target file
join_below (a ∷ root) target file = clean ((a ∷ root) ++ (b'/' ∷ (target ++ (b'/' ∷ file))))

-- `AssetPath`
unfoldable pub asset_path : Text → Text → Text → Option Text
unfolding safe_asset_path join_below
asset_path root target file =
    if safe_target_name target && safe_asset_path file
    then some (join_below root target file)
    else none

-- `size_of` is the size of a file, absent when there is none.
unfoldable pub has_content : (Text → Option ℕ) → Text → Text → Bool
has_content size_of dir dest = elim (size_of (join dir dest)) [
  | none ↦ false
  | some n ↦ not (n == 0)
]

-- `IsPopulated`, where `manifest_of` reads and decodes the manifest in a directory.
module _ {A : Type 0} (manifest_of : Text → Option A) (size_of : Text → Option ℕ) where
  unfoldable pub is_populated_spec : Text → Option TargetSpec → Option A
  unfolding has_content dests
  is_populated_spec dir none = none
  is_populated_spec dir (some spec) = elim (manifest_of dir) [
    | none ↦ none
    | some m ↦ if all_of (has_content size_of dir) (dests spec) then some m else none
  ]

  unfoldable pub is_populated : Text → Text → Option A
  unfolding is_populated_spec targets
  is_populated root target = is_populated_spec (join root target) (lookup target targets)
