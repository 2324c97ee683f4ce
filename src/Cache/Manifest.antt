-- ===== src/Cache/Manifest.antt =====
-- internal/cache/cache.go: the directory of a target and the manifest in it, on the files of the disk.
-- Encoding and decoding JSON are parameters.
use pxe_beacon.Base.{
  Bool, true, false, Option, none, some, if◌then◌else◌, Text, bytes, lookup, insert, delete,
}
use pxe_beacon.FilePaths.{join}
use pxe_beacon.Admin.Files.{FileMap}
use pxe_beacon.Cache.{safe_target_name}

-- The step at which the system fails, if it does. A write that fails may have left a part of the
-- text.
pub data Failure : Type 0 where
  sound mkdir_fails rename_fails : Failure
  write_fails : Option Text → Failure

-- `TargetDir`
unfoldable pub target_dir : Failure → Text → Text → Option Text
target_dir mkdir_fails root target = none
target_dir _ root target = if safe_target_name target then some (join root target) else none

abbrev pub manifest_file : Text → Text
manifest_file dir = join dir (bytes ".pxe-beacon-fetched")

abbrev pub manifest_temporary : Text → Text
manifest_temporary dir = join dir (bytes ".pxe-beacon-fetched.tmp")

-- WriteFile and Rename: the files that are left, and whether both have worked.
unfoldable pub put_manifest : Failure → Text → Text → FileMap → FileMap × Bool
put_manifest (write_fails none) dir text files = (files, false)
put_manifest (write_fails (some part)) dir text files =
    (insert (manifest_temporary dir) part files, false)
put_manifest rename_fails dir text files = (insert (manifest_temporary dir) text files, false)
put_manifest _ dir text files =
    (insert (manifest_file dir) text (delete (manifest_temporary dir) files), true)

-- `readManifest`
unfoldable pub read_manifest : {M : Type 0} → (Text → Option M) → FileMap → Text → Option M
read_manifest decode files dir = elim (lookup (manifest_file dir) files) [
  | none ↦ none
  | some text ↦ decode text
]

module _ {M : Type 0} (encode : M → Option Text) where
  unfoldable pub put_encoded : Failure → Text → Option Text → FileMap → FileMap × Bool
  unfolding put_manifest
  put_encoded step dir none files = (files, false)
  put_encoded step dir (some text) files = put_manifest step dir text files

  unfoldable pub write_into : Failure → Option Text → M → FileMap → FileMap × Bool
  unfolding put_encoded
  write_into step none m files = (files, false)
  write_into step (some dir) m files = put_encoded step dir (encode m) files

  -- `WriteManifest`
  unfoldable pub write_manifest : Failure → Text → Text → M → FileMap → FileMap × Bool
  unfolding write_into target_dir
  write_manifest step root target m files = write_into step (target_dir step root target) m files
