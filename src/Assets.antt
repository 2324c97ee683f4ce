-- ===== src/Assets.antt =====
-- internal/assets/assets.go: the embedded files, and the files of the operator that take their
-- place. The embedded file system is a parameter: the build fills it.
pub mod Overrides
pub mod Tests
use pxe_beacon.Base.{
  Bool, true, false, ◌||◌, Option, none, some, List, [], ◌∷◌, ◌++◌, if◌then◌else◌, is_empty, Text,
  bytes, text_eq,
}
use pxe_beacon.FilePaths.{clean, join}
use pxe_beacon.Tftp.{IpxeKind, efi_x64, snp_only, arm64, legacy_bios}

-- `IPXEKind.String`
unfoldable pub kind_name : IpxeKind → Text
kind_name efi_x64 = bytes "ipxe.efi"
kind_name snp_only = bytes "snponly.efi"
kind_name arm64 = bytes "ipxe-arm64.efi"
kind_name legacy_bios = bytes "undionly.kpxe"

-- `IPXEKind.FilePath`
unfoldable pub file_path : IpxeKind → Text
unfolding kind_name
file_path kind = bytes "ipxe/" ++ kind_name kind

-- The names of the `go:embed` lines.
abbrev pub embedded_names : List Text
embedded_names =
    bytes "ipxe/ipxe.efi"
    ∷ bytes "ipxe/snponly.efi"
    ∷ bytes "ipxe/ipxe-arm64.efi"
    ∷ bytes "ipxe/undionly.kpxe"
    ∷ bytes "scripts/boot.ipxe"
    ∷ bytes "scripts/autoexec/menu.ipxe"
    ∷ bytes "scripts/autoexec/ubuntu-22.04.ipxe"
    ∷ bytes "scripts/autoexec/ubuntu-24.04.ipxe"
    ∷ bytes "scripts/autoexec/debian-12.ipxe"
    ∷ bytes "scripts/autoexec/debian-13.ipxe"
    ∷ bytes "scripts/defaults/debian-preseed.cfg"
    ∷ bytes "scripts/defaults/rhel-kickstart.cfg"
    ∷ bytes "scripts/defaults/cloud-init.yaml"
    ∷ bytes "scripts/defaults/sysrescue.yaml"
    ∷ bytes "scripts/defaults/sysrescue-setup.sh"
    ∷ []

-- `ListEditableTemplates`
abbrev pub list_editable_templates : List Text
list_editable_templates =
    bytes "defaults/debian-preseed.cfg"
    ∷ bytes "defaults/cloud-init.yaml"
    ∷ bytes "defaults/sysrescue.yaml"
    ∷ bytes "defaults/sysrescue-setup.sh"
    ∷ bytes "autoexec/menu.ipxe"
    ∷ bytes "autoexec/ubuntu-22.04.ipxe"
    ∷ bytes "autoexec/ubuntu-24.04.ipxe"
    ∷ bytes "autoexec/debian-12.ipxe"
    ∷ bytes "autoexec/debian-13.ipxe"
    ∷ []

unfoldable pub is_listed : Text → List Text → Bool
is_listed s [] = false
is_listed s (t ∷ ts) = text_eq t s || is_listed s ts

-- Where the override of a template lies.
unfoldable pub template_path : Text → Text → Text
unfolding join
template_path dir rel = join dir (bytes "templates/" ++ rel)

-- `embedded` reads an embedded file.
module _ (embedded : Text → Option Text) where
  -- `ReadIPXE`
  unfoldable pub read_ipxe : IpxeKind → Option Text
  unfolding file_path
  read_ipxe kind = embedded (file_path kind)

  -- `ReadScript`
  unfoldable pub read_script : Option Text
  read_script = embedded (bytes "scripts/boot.ipxe")

  -- `ReadEmbedded`
  unfoldable pub read_embedded : Text → Option Text
  read_embedded rel = embedded (bytes "scripts/" ++ rel)

-- `read` reads a file of the disk, and `dir` is `OverrideDir`.
-- `resolveOverride`
unfoldable pub resolve_override : Text → (Text → Option Text) → Text → Option Text
unfolding template_path
resolve_override dir read rel = if is_empty dir then none else read (template_path dir rel)

module _ (embedded : Text → Option Text) (dir : Text) (read : Text → Option Text) where
  -- The override of a template or the embedded file.
  unfoldable pub read_template : Text → Option Text
  unfolding resolve_override read_embedded
  read_template rel = elim (resolve_override dir read rel) [
    | some b ↦ some b
    | none ↦ read_embedded embedded rel
  ]

  -- `ReadAutoexec`
  unfoldable pub read_autoexec : Text → Option Text
  unfolding read_template
  read_autoexec target =
      if is_empty target
      then none
      else read_template (bytes "autoexec/" ++ (target ++ bytes ".ipxe"))

  -- `ReadDefault`
  unfoldable pub read_default : Text → Option Text
  unfolding read_template
  read_default name = if is_empty name then none else read_template (bytes "defaults/" ++ name)
