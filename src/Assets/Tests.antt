-- ===== src/Assets/Tests.antt =====
-- Reads of templates at concrete inputs.
use pxe_beacon.Base.{
  ◌≡◌, refl, true, Option, some, [], ◌∷◌, ◌++◌, all_of, Text, bytes, text_eq, lookup,
}
use pxe_beacon.FilePaths.{path_code}
use pxe_beacon.Tftp.{arm64}
use pxe_beacon.Assets.{
  embedded_names, list_editable_templates, is_listed, kind_name, file_path, template_path,
  read_embedded, resolve_override, read_template, read_autoexec, read_default, read_ipxe,
}

assets_code : Unit {0}
unfolding path_code text_eq lookup is_listed kind_name file_path template_path read_embedded
    resolve_override read_template read_autoexec read_default read_ipxe all_of
assets_code = tt

abbrev embedded : Text → Option Text
embedded path = some path

abbrev disk : Text → Option Text
disk path = lookup path ((bytes "/data/templates/autoexec/menu.ipxe", bytes "mine") ∷ [])

override_first : read_autoexec embedded (bytes "/data") disk (bytes "menu") ≡ some (bytes "mine")
unfolding assets_code
override_first = refl

embedded_else :
    read_default embedded (bytes "/data") disk (bytes "cloud-init.yaml")
    ≡ some (bytes "scripts/defaults/cloud-init.yaml")
unfolding assets_code
embedded_else = refl

arm64_file : read_ipxe embedded arm64 ≡ some (bytes "ipxe/ipxe-arm64.efi")
unfolding assets_code
arm64_file = refl

-- Each template that can be edited is embedded.
editable_embedded :
    all_of (λ rel. is_listed (bytes "scripts/" ++ rel) embedded_names) list_editable_templates
    ≡ true
unfolding assets_code
editable_embedded = refl
