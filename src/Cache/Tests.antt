-- ===== src/Cache/Tests.antt =====
-- Asset names at concrete inputs, and the theorem about them there.
use pxe_beacon.Base.{
  ℕ, ◌≡◌, refl, sym, true, false, if◌then◌else◌, Option, none, some, [], Text, bytes, text_lt,
  all_of, lookup, sort_by, insert_by,
}
use pxe_beacon.FilePaths.{path_code}
use pxe_beacon.Cache.{
  dests, targets, is_name_byte, safe_target_name, safe_asset_path, join_below, asset_path,
  has_content, is_populated_spec, is_populated,
}
use pxe_beacon.Cache.Manifest.{
  sound, target_dir, put_manifest, put_encoded, write_into, write_manifest, read_manifest,
}
use pxe_beacon.Cache.Fetched.{is_complete, is_populated-write_manifest}

cache_code : Unit {0}
unfolding path_code text_lt all_of lookup sort_by insert_by dests targets is_name_byte
    safe_target_name safe_asset_path join_below asset_path has_content is_populated_spec
    is_populated target_dir put_manifest put_encoded write_into write_manifest
cache_code = tt

abbrev root : Text
root = bytes "/var/lib/pxe"

abbrev rescue : Text
rescue = bytes "systemrescue"

abbrev image : Text
image = bytes "sysresccd/x86_64/airootfs.sfs"

image_path :
    asset_path root rescue image
    ≡ some (bytes "/var/lib/pxe/systemrescue/sysresccd/x86_64/airootfs.sfs")
unfolding cache_code
image_path = refl

climbing_refused : asset_path root rescue (bytes "../../../etc/passwd") ≡ none
unfolding cache_code
climbing_refused = refl

hidden_refused : asset_path root rescue (bytes ".pxe-beacon-fetched") ≡ none
unfolding cache_code
hidden_refused = refl

empty_file_unpopulated :
    is_populated {A = Text} (λ dir. some []) (λ path. some 0) root rescue ≡ none
unfolding cache_code
empty_file_unpopulated = refl

abbrev size_of : Text → Option ℕ
size_of path = some 5

rescue_complete : is_complete size_of root rescue ≡ true
unfolding cache_code
rescue_complete = refl

climbing_unwritten :
    write_manifest {M = Text} some sound root (bytes "..") (bytes "{}") [] ≡ ([], false)
unfolding cache_code
climbing_unwritten = refl

is_populated-write_manifest_example :
    is_populated
      (read_manifest {M = Text} some (write_manifest some sound root rescue (bytes "{}") []).0)
      size_of
      root
      rescue
    ≡ (if (write_manifest {M = Text} some sound root rescue (bytes "{}") []).1
        then if is_complete size_of root rescue then some (bytes "{}") else none
        else is_populated (read_manifest {M = Text} some []) size_of root rescue)
is_populated-write_manifest_example =
    is_populated-write_manifest some some size_of sound root rescue (bytes "{}") [] (λ x t e. sym e)
      refl
