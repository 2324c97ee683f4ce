-- ===== src/Served.antt =====
-- The files that internal/httpd/httpd.go serves beside the documents: the iPXE binaries, the script
-- that iPXE loads, its diagnostic copy, the files of the cached targets and the hint page. Range
-- requests and the transfer are the work of the standard library; a response is its status, the
-- length that it announces, its body and the tag that the listener is told.
pub mod Offered
pub mod Contained
pub mod Tests
use pxe_beacon.Base.{
  ℕ, Bool, true, false, ◌||◌, Option, none, some, [], ◌∷◌, ◌++◌, if◌then◌else◌, is_empty, length,
  Text, bytes, text_eq,
}
use pxe_beacon.Fleet.{is_text}
use pxe_beacon.Tftp.{IpxeKind, efi_x64, snp_only, arm64, legacy_bios}
use pxe_beacon.Assets.{read_ipxe, read_script}
use pxe_beacon.Boot.Script.{sprintf}
use pxe_beacon.Cache.{asset_path}

pub record Response : Type 0 where
  pub status : ℕ
  pub content_length : Option ℕ
  pub body : Option Text
  pub note : Option Text

unfoldable pub failed : ℕ → Response
failed status = record { status = status; content_length = none; body = none; note = none }

-- A body with its length; a HEAD request gets the length alone, and is not noted.
unfoldable pub sent : Bool → Text → Option Text → Response
sent is_head content note = record {
  status = 200;
  content_length = some (length content);
  body = if is_head then none else some content;
  note = if is_head then none else note;
}

-- The routes of the binaries.
unfoldable pub kind_for_path : Text → Option IpxeKind
kind_for_path path =
    if is_text path "/netboot.xyz.efi" || is_text path "/ipxe.efi"
    then some efi_x64
    else if is_text path "/netboot.xyz-snponly.efi" || is_text path "/snponly.efi"
    then some snp_only
    else if is_text path "/netboot.xyz-arm64.efi" || is_text path "/ipxe-arm64.efi"
    then some arm64
    else if is_text path "/netboot.xyz.kpxe" || is_text path "/undionly.kpxe"
    then some legacy_bios
    else none

-- `handleScript`; `dispatch` is the dispatch script when a fleet is loaded, and `legacy` the
-- rendered template otherwise.
unfoldable pub handle_script : Option Text → Option Text → Bool → Response
unfolding sent failed
handle_script (some script) legacy is_head = sent is_head script (some (bytes "ipxe-anon"))
handle_script none (some script) is_head = sent is_head script (some (bytes "ipxe-anon"))
handle_script none none is_head = failed 500

-- `handleDebugAutoexec`
unfoldable pub handle_debug_autoexec : Option Text → Response
unfolding failed
handle_debug_autoexec none = failed 404
handle_debug_autoexec (some script) = record {
  status = 200;
  content_length = none;
  body = some script;
  note = none;
}

-- `handleRoot`
unfoldable pub handle_root : Text → Text → Text → Response
unfolding sent failed sprintf
handle_root advertised_ip chain_url path =
    if is_text path "/"
    then sent false
        (sprintf
          "pxe-beacon HTTP server\nendpoints:\n  /boot.ipxe                - iPXE chain script (templated)\n  /netboot.xyz.efi          - UEFI x86_64 iPXE binary (HTTP boot)\n  /netboot.xyz-arm64.efi    - UEFI ARM64 iPXE binary\n  /netboot.xyz.kpxe         - legacy BIOS iPXE binary\nadvertised-ip: %s\nchain-url:     %s\n"
          (advertised_ip ∷ chain_url ∷ []))
        none
    else failed 404

-- `embedded` reads an embedded file.
module _ (embedded : Text → Option Text) where
  -- `loadTemplate`, where `read` reads a file of the disk and `parse` parses a template.
  unfoldable pub load_template {ℓ} :
      {T : Type ℓ} → (Text → Option Text) → (Text → Option T) → Text → Option T
  unfolding read_script
  load_template read parse override =
      elim (if is_empty override then read_script embedded else read override) [
        | none ↦ none
        | some raw ↦ parse raw
      ]

  -- `serveIPXE`
  unfoldable pub serve_ipxe : IpxeKind → Bool → Response
  unfolding sent failed read_ipxe
  serve_ipxe kind is_head = elim (read_ipxe embedded kind) [
    | none ↦ failed 500
    | some content ↦ sent is_head content (some (bytes "http-anon"))
  ]

  -- The routes of the binaries, of the script and of the hint page, for a path without a route of
  -- its own elsewhere; main fixes the path of the script to /boot.ipxe.
  unfoldable pub handle_file :
      Text → Text → Text → Option Text → Option Text → Bool → Text → Response
  unfolding kind_for_path serve_ipxe handle_script handle_root
  handle_file script_path advertised_ip chain_url dispatch legacy is_head path =
      if text_eq path script_path
      then handle_script dispatch legacy is_head
      else elim (kind_for_path path) [
        | some kind ↦ serve_ipxe kind is_head
        | none ↦ handle_root advertised_ip chain_url path
      ]

-- What opening a file gives: its content, or that it is not there, or another error, of Open or of
-- Stat.
pub data Opened : Type 0 where
  absent broken : Opened
  opened : Text → Opened

unfoldable pub asset_response : Bool → Opened → Response
unfolding sent failed
asset_response is_head absent = failed 404
asset_response is_head broken = failed 500
asset_response is_head (opened content) = sent is_head content none

-- `abs` is filepath.Abs, `made` says whether the directory could be made, and `open_file` opens a
-- file.
module _ (abs : Text → Option Text) (made : Bool) (open_file : Text → Opened) where
  -- `New` of internal/cache/cache.go: the root of the cache
  unfoldable pub new_cache : Text → Option Text
  new_cache dir =
      if is_empty dir
      then none
      else elim (abs dir) [ none ↦ none | some root ↦ if made then some root else none ]

  unfoldable pub asset_at : Bool → Option Text → Response
  unfolding asset_response failed
  asset_at is_head none = failed 400
  asset_at is_head (some path) = asset_response is_head (open_file path)

  unfoldable pub asset_in : Bool → Text → Text → Option Text → Response
  unfolding asset_at asset_path failed
  asset_in is_head target file none = failed 500
  asset_in is_head target file (some root) = asset_at is_head (asset_path root target file)

  -- `handleAsset`
  unfoldable pub handle_asset : Text → Text → Text → Bool → Response
  unfolding asset_in new_cache failed
  handle_asset data_dir target file is_head =
      if is_empty data_dir then failed 404 else asset_in is_head target file (new_cache data_dir)
