-- ===== src/Admin/Views.antt =====
-- What the editors of the administration pages of internal/httpd/admin.go show: a template, and the
-- cloud-init document of a machine.
use pxe_beacon.Base.{
  ℕ, Bool, true, false, not, ◌||◌, Option, none, some, [], ◌++◌, if◌then◌else◌, is_empty, Text,
  bytes, is_some, Result, ok, err,
}
use pxe_beacon.Mac.{canonical_mac}
use pxe_beacon.Fleet.{Fleet, Profile, lookup_machine}
use pxe_beacon.Boot.Arms.{hyphens}
use pxe_beacon.Assets.{template_path, read_embedded, read_default}
use pxe_beacon.UserData.{Settings, override_path, machine_override}
use pxe_beacon.Admin.{normalize_template_name, is_editable_template}

-- What the editor of a template shows.
pub record TemplateView : Type 0 where
  pub name : Text
  pub has_override : Bool
  pub override_path : Text
  pub content : Text
  pub embedded_content : Text

-- What the editor of a machine's document shows.
pub record CloudInitView : Type 0 where
  pub name : Text
  pub mac : Text
  pub mac_hyp : Text
  pub has_override : Bool
  pub override_path : Text
  pub content : Text
  pub source : Text

unfoldable pub template_view_of : Text → Text → Option Text → Text → TemplateView
template_view_of rel path (some b) embedded_content = record {
  name = rel;
  has_override = true;
  override_path = path;
  content = b;
  embedded_content = embedded_content;
}
template_view_of rel path none embedded_content = record {
  name = rel;
  has_override = false;
  override_path = path;
  content = embedded_content;
  embedded_content = embedded_content;
}

module _ (embedded : Text → Option Text) (read : Text → Option Text) where
  -- `handleAdminTemplateView`
  unfoldable pub template_view : Text → Text → Result ℕ TemplateView
  unfolding template_view_of is_editable_template read_embedded template_path
      normalize_template_name
  template_view dir raw =
      let rel = normalize_template_name raw in
      if is_empty rel || not (is_editable_template rel)
      then err 400
      else elim (read_embedded embedded rel) [
        | none ↦ err 500
        | some b ↦
            let path = template_path dir rel in
            ok (
              template_view_of rel (if is_empty dir then [] else path)
                (if is_empty dir then none else read path) b)
      ]

  -- The content that an editor starts from without an override, and where it comes from.
  unfoldable pub fleet_seed : Profile → Text × Text
  fleet_seed p = if is_empty p.cloud_init then ([], []) else elim (read p.cloud_init) [
    | none ↦ ([], [])
    | some b ↦ (b, bytes "starting from fleet cloud_init: " ++ p.cloud_init)
  ]

  unfoldable pub seed : Text → Profile → Text × Text
  unfolding fleet_seed read_default
  seed dir p =
      let (content, source) = fleet_seed p in
      if is_empty content
      then elim (read_default embedded dir read (bytes "cloud-init.yaml")) [
        | none ↦ (content, source)
        | some b ↦ (b, bytes "starting from embedded default")
      ]
      else (content, source)

  unfoldable pub cloud_init_view_of : Settings → Profile → Text → Option Text → CloudInitView
  unfolding seed override_path
  cloud_init_view_of s p mac override =
      let start : Text × Text = elim override [ some b ↦ (b, []) | none ↦ seed s.data_dir p ] in
      record {
        name = if is_empty p.name then mac else p.name;
        mac = mac;
        mac_hyp = hyphens mac;
        has_override = is_some override;
        override_path = override_path s mac;
        content = start.0;
        source = start.1;
      }

  unfoldable pub cloud_init_view_for : Settings → Fleet → Option Text → Result ℕ CloudInitView
  unfolding cloud_init_view_of machine_override lookup_machine
  cloud_init_view_for s f none = err 400
  cloud_init_view_for s f (some mac) =
      if is_empty s.data_dir
      then err 400
      else ok (cloud_init_view_of s (lookup_machine f mac) mac (machine_override read s mac))

  -- `handleAdminCloudInitView`, behind the test that the fleet is wired
  unfoldable pub cloud_init_view : Settings → Fleet → Text → Result ℕ CloudInitView
  unfolding cloud_init_view_for
  cloud_init_view s f raw = cloud_init_view_for s f (canonical_mac raw)
