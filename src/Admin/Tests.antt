-- ===== src/Admin/Tests.antt =====
-- Forms and editors at concrete inputs, and the theorems about them there.
use pxe_beacon.Base.{
  ℕ, ◌≡◌, refl, Bool, true, Option, none, some, List, [], ◌∷◌, Text, bytes, text_eq, pos,
  replace_byte, lookup, insert, delete, all_of, split_on, push_first, trim_code, byte_at,
}
use pxe_beacon.Mac.{canonical_mac, mac_code}
use pxe_beacon.Mac.Canonical.{names}
use pxe_beacon.FilePaths.{path_code}
use pxe_beacon.Fleet.{lookup_machine, resolved, profile_of}
use pxe_beacon.Fleet.PhoneHome.{line_defines, any_line, defines_phone_home}
use pxe_beacon.Fleet.Txn.{hex_text}
use pxe_beacon.Assets.{
  list_editable_templates, is_listed, template_path, read_embedded, resolve_override, read_template,
  read_default,
}
use pxe_beacon.UserData.{
  Settings, Vars, override_path, machine_override, source_of, rendered, document,
}
use pxe_beacon.Admin.Files.{FileMap, sound, rename_fails, replace_file, remove_file}
use pxe_beacon.Admin.{
  is_redirected, normalize_template_name, is_editable_template, is_template_name, answered,
  cloud_init_flash, escape, template_save, template_reset, cloud_init_save_for, cloud_init_save,
  cloud_init_reset_for, cloud_init_reset, save_template, save_cloud_init, handle, is_loopback,
  Request, csrf_guard, csrf_refusal, token_refusal, is_local, loopback_only, post_form,
}
use pxe_beacon.Admin.Views.{
  TemplateView, template_view_of, template_view, fleet_seed, seed, cloud_init_view_of,
  cloud_init_view_for, cloud_init_view,
}
use pxe_beacon.Admin.Templates.{on_disk}
use pxe_beacon.Admin.Guarded.{has_token}
use pxe_beacon.Admin.Replay.{
  Post, template_after, override_after, replay_template, replay_override, answer_post, run,
  run_refines,
}
use pxe_beacon.Admin.Served.{template_view-read_template}

admin_code : Unit {0}
unfolding mac_code path_code text_eq lookup insert delete replace_byte names lookup_machine resolved
    profile_of line_defines any_line defines_phone_home hex_text is_listed template_path
    read_embedded resolve_override read_template read_default override_path machine_override
    source_of rendered document replace_file remove_file is_redirected normalize_template_name
    is_editable_template is_template_name answered cloud_init_flash escape template_save
    template_reset cloud_init_save_for cloud_init_save cloud_init_reset_for cloud_init_reset handle
    is_loopback csrf_guard csrf_refusal token_refusal is_local loopback_only post_form
    template_view_of template_view fleet_seed seed cloud_init_view_of cloud_init_view_for
    cloud_init_view has_token template_after override_after replay_template replay_override
    answer_post run trim_code split_on push_first all_of byte_at
admin_code = tt

abbrev node : Text
node = bytes "52:54:00:00:00:01"

abbrev settings : Settings
settings = record {
  advertised_ip = bytes "10.0.0.2";
  http_port = pos 8080;
  data_dir = bytes "/data";
  callback_tokens = none;
}

abbrev host_of : Text → Option Text
host_of remote = some (bytes "::1")

abbrev parse_ip : Text → Option (List ℕ)
parse_ip host = some (0 ∷ 0 ∷ 0 ∷ 0 ∷ 0 ∷ 0 ∷ 0 ∷ 0 ∷ 0 ∷ 0 ∷ 0 ∷ 0 ∷ 0 ∷ 0 ∷ 0 ∷ 1 ∷ [])

abbrev token : Text
token = bytes "t0k3n"

abbrev sent : Request
sent = record { remote = bytes "[::1]:50000"; is_post = true; csrf = some token }

abbrev menu : Text
menu = bytes "autoexec/menu.ipxe"

abbrev embedded : Text → Option Text
embedded path = some (bytes "#!ipxe")

abbrev posts : List Post
posts =
    record { request = sent; fault = sound; form = save_template menu (bytes "menu") }
    ∷ record {
      request = sent;
      fault = sound;
      form = save_cloud_init (bytes "52-54-00-00-00-01") (bytes "hostname: kube");
    }
    ∷ record { request = sent; fault = rename_fails; form = save_template menu (bytes "lost") }
    ∷ []

node_known : canonical_mac node ≡ some node
unfolding mac_code
node_known = refl

menu_listed : is_listed menu list_editable_templates ≡ true
unfolding is_listed text_eq
menu_listed = refl

menu_after :
    read_template embedded settings.data_dir
      (on_disk (run host_of parse_ip token settings posts []).0)
      menu
    ≡ some (bytes "menu")
unfolding admin_code
menu_after = refl

override_saved :
    machine_override (on_disk (run host_of parse_ip token settings posts []).0) settings node
    ≡ some (bytes "hostname: kube")
unfolding admin_code
override_saved = refl

run_refines_example :
    (read_template embedded settings.data_dir
        (on_disk (run host_of parse_ip token settings posts []).0)
        menu
      ≡ replay_template menu
          (read_embedded embedded menu)
          (run host_of parse_ip token settings posts []).1
          (read_template embedded settings.data_dir (on_disk []) menu))
    × (machine_override (on_disk (run host_of parse_ip token settings posts []).0) settings node
        ≡ replay_override node
            (run host_of parse_ip token settings posts []).1
            (machine_override (on_disk []) settings node))
run_refines_example =
    run_refines host_of parse_ip token settings embedded menu node node menu_listed node_known posts
      []

abbrev hmac : Text → Text → Text
hmac key message = []

abbrev render : Text → Vars → Option Text
render raw vars = some raw

abbrev is_map : Text → Bool
is_map raw = true

abbrev files : FileMap
files =
    (bytes "/data/templates/autoexec/menu.ipxe", bytes "mine")
    ∷ (bytes "/data/machines/52-54-00-00-00-01/cloud-init.yaml", bytes "a: 1")
    ∷ []

abbrev shown : TemplateView
shown = record {
  name = menu;
  has_override = true;
  override_path = bytes "/data/templates/autoexec/menu.ipxe";
  content = bytes "mine";
  embedded_content = bytes "#!ipxe";
}

template_view-read_template_example :
    (shown.name ≡ normalize_template_name menu)
    × (is_listed (normalize_template_name menu) list_editable_templates ≡ true)
    × (read_template embedded settings.data_dir (on_disk files) (normalize_template_name menu)
        ≡ some shown.content)
    × (read_embedded embedded (normalize_template_name menu) ≡ some shown.embedded_content)
unfolding admin_code
template_view-read_template_example =
    template_view-read_template embedded (on_disk files) settings.data_dir menu shown refl
