-- ===== src/Tftp.antt =====
-- internal/tftp/tftp.go: what a read request is answered with.
pub mod Prefixes
pub mod Tests
use pxe_beacon.Base.{
  ℕ, Bool, true, false, ◌||◌, Option, none, some, List, [], ◌∷◌, if◌then◌else◌, is_empty, is_some,
  Text, bytes, has_prefix, replace_byte, split_on,
}
use pxe_beacon.Fleet.{is_text}

-- `IPXEKind`, the binaries that are embedded by the build.
pub data IpxeKind : Type 0 where
  efi_x64 snp_only arm64 legacy_bios : IpxeKind

-- `kindForLeaf`
unfoldable pub kind_for_leaf : Text → Option IpxeKind
kind_for_leaf leaf =
    if is_text leaf "ipxe.efi" || is_text leaf "netboot.xyz.efi"
    then some efi_x64
    else if is_text leaf "snponly.efi"
        || is_text leaf "netboot.xyz-snponly.efi"
        || is_text leaf "ipxe-snponly.efi"
    then some snp_only
    else if is_text leaf "ipxe-arm64.efi" || is_text leaf "netboot.xyz-arm64.efi"
    then some arm64
    else if is_text leaf "undionly.kpxe"
        || is_text leaf "netboot.xyz.kpxe"
        || is_text leaf "ipxe.kpxe"
    then some legacy_bios
    else none

-- The last element that is not empty.
unfoldable pub last_element : Text → List Text → Text
last_element found [] = found
last_element found (e ∷ es) = last_element (if is_empty e then found else e) es

-- `path.Base`
unfoldable pub path_base : Text → Text
unfolding last_element split_on
path_base p = if is_empty p then bytes "." else last_element (bytes "/") (split_on b'/' p)

abbrev pub slashes : Text → Text
slashes filename = replace_byte b'\\' b'/' filename

-- `strings.TrimPrefix(s, "/")`
unfoldable pub trim_slash : Text → Text
trim_slash [] = []
trim_slash (b ∷ s) = if has_prefix (b ∷ s) (bytes "/") then s else b ∷ s

unfoldable pub is_probe : Text → Bool
unfolding trim_slash has_prefix replace_byte
is_probe filename =
    let normalized = trim_slash (slashes filename) in
    has_prefix normalized (bytes "probe/")
    || has_prefix normalized (bytes "probe-")
    || has_prefix normalized (bytes "probe.")

-- The content that is sent, whether the handler returns an error, and whether it tells the listener
-- that something was served.
pub record Answer : Type 0 where
  pub content : Option Text
  pub fails : Bool
  pub notes : Bool

abbrev not_found : Answer
not_found = record { content = none; fails = true; notes = false }

-- The transfer of a content; whether it completes is decided by the library.
unfoldable pub transferred : Bool → Text → Answer
transferred completes body = record {
  content = some body;
  fails = if completes then false else true;
  notes = completes;
}

-- `autoexec` is the script for autoexec.ipxe, absent when there is none, and `read_ipxe` reads an
-- embedded binary.
module _ (autoexec : Option Text) (read_ipxe : IpxeKind → Option Text) (completes : Bool) where
  unfoldable pub serve_body : Option Text → Answer
  unfolding transferred
  serve_body none = not_found
  serve_body (some body) = transferred completes body

  unfoldable pub serve_kind : Option IpxeKind → Answer
  unfolding serve_body
  serve_kind none = not_found
  serve_kind (some kind) = serve_body (read_ipxe kind)

  -- What is served for a leaf.
  unfoldable pub serve_leaf : Text → Answer
  unfolding serve_kind kind_for_leaf
  serve_leaf leaf =
      if is_text leaf "autoexec.ipxe" then serve_body autoexec else serve_kind (kind_for_leaf leaf)

  -- `readHandler`
  unfoldable pub read_handler : Text → Answer
  unfolding serve_leaf path_base is_probe
  read_handler filename =
      if is_probe filename
      then record { content = some (bytes "\n"); fails = false; notes = false }
      else serve_leaf (path_base (slashes filename))
