-- ===== src/Installer.antt =====
-- The other documents of internal/httpd/httpd.go that an installer fetches: handlePreseed,
-- handleKickstart, handleMetaData, handleSysrescueConfig and handleSysrescueSetup. Parsing and
-- rendering a template is a parameter.
pub mod Networks
pub mod Prefixes
pub mod Noted
pub mod Bridge
pub mod Tests
use pxe_beacon.Base.{
  ℕ, Bool, true, false, not, ◌||◌, Option, none, some, List, [], ◌∷◌, ◌++◌, if◌then◌else◌, is_empty,
  ℤ, Text, bytes, text, int_text, Map, Result, ok, err,
}
use pxe_beacon.Mac.{canonical_mac}
use pxe_beacon.Fleet.{Fleet, Profile, lookup_machine, is_text}
use pxe_beacon.Tracker.{user_data_fetched}
use pxe_beacon.Assets.{read_default}
use pxe_beacon.Boot.Script.{sprintf}
use pxe_beacon.Boot.Arms.{hyphens}
use pxe_beacon.Httpd.{Server, fleet_ready, note_wired}
use pxe_beacon.UserData.{Settings, ends_line, mint_callback_token}
use pxe_beacon.Installer.Networks.{wider_network_cidr}

-- What the templates are rendered with.
pub record PreseedVars : Type 0 where
  pub name : Text
  pub mac : Text
  pub mac_hyp : Text
  pub advertised_ip : Text
  pub http_port : ℤ
  pub client_netmask : Text
  pub wider_network : Text
  pub params : Map Text
  pub callback_token : Text

pub record KickstartVars : Type 0 where
  pub name : Text
  pub mac : Text
  pub mac_hyp : Text
  pub advertised_ip : Text
  pub http_port : ℤ
  pub client_netmask : Text
  pub wider_network : Text
  pub repo_base_url : Text
  pub callback_token : Text

pub record RescueVars : Type 0 where
  pub name : Text
  pub mac : Text
  pub mac_hyp : Text
  pub advertised_ip : Text
  pub http_port : ℤ
  pub params : Map Text

pub data InstallerError : Type 0 where
  not_ready mac_missing mac_invalid unreadable no_default not_rendered : InstallerError

-- The file of the operator if one is set, otherwise the embedded default if there is to be one.
unfoldable pub source_of :
    (Text → Option Text) → Text → Bool → Option Text → Result InstallerError (Option Text)
source_of read file wants_default default_ =
    if not (is_empty file)
    then elim (read file) [ none ↦ err unreadable | some raw ↦ ok (some raw) ]
    else if wants_default
    then elim default_ [ none ↦ err no_default | some raw ↦ ok (some raw) ]
    else ok none

unfoldable pub is_debian : Text → Bool
is_debian boot = is_text boot "debian-12" || is_text boot "debian-13"

unfoldable pub is_rhel : Text → Bool
is_rhel boot = is_text boot "rocky-9" || is_text boot "alma-9"

-- The switch over the boot target.
unfoldable pub repo_base : Text → Text
repo_base boot =
    if is_text boot "rocky-9"
    then bytes "https://download.rockylinux.org/pub/rocky/9/BaseOS/x86_64/os"
    else if is_text boot "alma-9"
    then bytes "https://repo.almalinux.org/almalinux/9/BaseOS/x86_64/os"
    else []

-- `renderCloudInitBridge`
unfoldable pub cloud_init_bridge : Text → ℤ → Text → Text
unfolding sprintf
cloud_init_bridge advertised_ip http_port mac_hyp =
    sprintf
      "\n### cloud-init bridge — appended automatically by pxe-beacon (v0.5.0+).\n### Runs on first boot of the installed system. Idempotent.\nd-i preseed/late_command string \\\n  in-target apt-get update ; \\\n  in-target apt-get install -y --no-install-recommends cloud-init wget ca-certificates ; \\\n  in-target mkdir -p /var/lib/cloud/seed/nocloud ; \\\n  in-target sh -c 'echo \"datasource_list: [NoCloud, None]\" > /etc/cloud/cloud.cfg.d/90-pxe-beacon-nocloud.cfg' ; \\\n  in-target wget -q -O /var/lib/cloud/seed/nocloud/user-data http://%s:%d/autoinstall/%s/user-data ; \\\n  in-target wget -q -O /var/lib/cloud/seed/nocloud/meta-data http://%s:%d/autoinstall/%s/meta-data ; \\\n  in-target systemctl enable cloud-init.service cloud-config.service cloud-final.service cloud-init-local.service ;\n"
      (advertised_ip
        ∷ int_text http_port
        ∷ mac_hyp
        ∷ advertised_ip
        ∷ int_text http_port
        ∷ mac_hyp
        ∷ [])

-- The document where nothing is configured.
unfoldable pub preseed_stub : Text → Text → Text
preseed_stub mac boot =
    bytes "# pxe-beacon: no preseed configured for "
    ++ (mac
        ++ (bytes "\n# (boot="
            ++ (boot
                ++ text
                    "). For unattended d-i, set `boot: debian-12` or\n# `boot: debian-13` in fleet.yaml — pxe-beacon then serves the\n# embedded default preseed, with user pxe / password pxe.\n")))

unfoldable pub kickstart_stub : Text → Text → Text
kickstart_stub mac boot =
    bytes "# pxe-beacon: no kickstart configured for "
    ++ (mac
        ++ (bytes "\n# (boot="
            ++ (boot
                ++ bytes
                    "). For unattended Rocky/Alma install, set\n# `boot: rocky-9` or `boot: alma-9` in fleet.yaml.\n")))

unfoldable pub with_bridge : Text → Text → Text
unfolding ends_line
with_bridge bridge body = (if ends_line body then body else body ++ (10 ∷ [])) ++ bridge

-- Whether the bridge follows a preseed.
unfoldable pub needs_bridge : Profile → Bool
needs_bridge p = not (is_empty p.cloud_init) || is_empty p.preseed

-- The end of a request for an installation document: one that is served is noted.
unfoldable pub noted :
    Server → ℕ → Text → Result InstallerError Text → Server × Result InstallerError Text
noted server now mac (err e) = (server, err e)
noted server now mac (ok body) = (
  record server { tracker = note_wired server.tracker server.fleet now mac user_data_fetched },
  ok body,
)

abbrev pub executed {ℓ} :
    {V : Type ℓ} → (Text → V → Option Text) → V → Text → Result InstallerError Text
executed render vars raw = elim (render raw vars) [ none ↦ err not_rendered | some body ↦ ok body ]

unfoldable pub meta_data_for : Profile → Text → Text
unfolding sprintf
meta_data_for p mac =
    let name = if is_empty p.name then hyphens mac else p.name in
    sprintf "instance-id: %s\nlocal-hostname: %s\n" (name ∷ name ∷ [])

-- The routes.
pub data Document : Type 0 where
  preseed_cfg kickstart_cfg meta_data sysrescue_yaml sysrescue_setup_sh : Document

-- `hmac` is HMAC-SHA256, `parse_ip` is `net.ParseIP`, and `embedded` and `read` read an embedded
-- file and a file of the disk.
module _ (hmac : Text → Text → Text) (parse_ip : Text → Option (List ℕ))
    (embedded : Text → Option Text) (read : Text → Option Text)
    (render_preseed : Text → PreseedVars → Option Text)
    (render_kickstart : Text → KickstartVars → Option Text)
    (render_rescue : Text → RescueVars → Option Text) (s : Settings) (client_netmask : Text) where
  unfoldable pub preseed_vars : ℕ → Text → Profile → PreseedVars
  unfolding mint_callback_token wider_network_cidr
  preseed_vars now mac p = record {
    name = p.name;
    mac = mac;
    mac_hyp = hyphens mac;
    advertised_ip = s.advertised_ip;
    http_port = s.http_port;
    client_netmask = client_netmask;
    wider_network = wider_network_cidr parse_ip s.advertised_ip client_netmask;
    params = p.params;
    callback_token = mint_callback_token hmac s now mac;
  }

  unfoldable pub kickstart_vars : ℕ → Text → Profile → KickstartVars
  unfolding mint_callback_token wider_network_cidr repo_base
  kickstart_vars now mac p = record {
    name = p.name;
    mac = mac;
    mac_hyp = hyphens mac;
    advertised_ip = s.advertised_ip;
    http_port = s.http_port;
    client_netmask = client_netmask;
    wider_network = wider_network_cidr parse_ip s.advertised_ip client_netmask;
    repo_base_url = repo_base p.boot;
    callback_token = mint_callback_token hmac s now mac;
  }

  -- `rescueTemplateVars`
  unfoldable pub rescue_vars : Text → Profile → RescueVars
  rescue_vars mac p = record {
    name = p.name;
    mac = mac;
    mac_hyp = hyphens mac;
    advertised_ip = s.advertised_ip;
    http_port = s.http_port;
    params = p.params;
  }

  -- A preseed that was rendered.
  unfoldable pub bridged : Text → Profile → Result InstallerError Text → Result InstallerError Text
  unfolding with_bridge needs_bridge cloud_init_bridge
  bridged mac p (err e) = err e
  bridged mac p (ok body) = ok (
      if needs_bridge p
      then with_bridge (cloud_init_bridge s.advertised_ip s.http_port (hyphens mac)) body
      else body)

  unfoldable pub preseed_from :
      ℕ → Text → Profile → Result InstallerError (Option Text) → Result InstallerError Text
  unfolding bridged preseed_vars preseed_stub
  preseed_from now mac p (err e) = err e
  preseed_from now mac p (ok none) = ok (preseed_stub mac p.boot)
  preseed_from now mac p (ok (some raw)) =
      bridged mac p (executed render_preseed (preseed_vars now mac p) raw)

  unfoldable pub preseed : ℕ → Text → Profile → Result InstallerError Text
  unfolding preseed_from source_of is_debian read_default
  preseed now mac p = preseed_from now mac p (
      source_of read p.preseed (is_debian p.boot)
        (read_default embedded s.data_dir read (bytes "debian-preseed.cfg")))

  unfoldable pub kickstart_from :
      ℕ → Text → Profile → Result InstallerError (Option Text) → Result InstallerError Text
  unfolding kickstart_vars kickstart_stub
  kickstart_from now mac p (err e) = err e
  kickstart_from now mac p (ok none) = ok (kickstart_stub mac p.boot)
  kickstart_from now mac p (ok (some raw)) =
      executed render_kickstart (kickstart_vars now mac p) raw

  unfoldable pub kickstart : ℕ → Text → Profile → Result InstallerError Text
  unfolding kickstart_from source_of is_rhel read_default
  kickstart now mac p = kickstart_from now mac p (
      source_of read p.kickstart (is_rhel p.boot)
        (read_default embedded s.data_dir read (bytes "rhel-kickstart.cfg")))

  -- `serveTemplated`; a source is always there.
  unfoldable pub serve_templated :
      Text → Profile → Result InstallerError (Option Text) → Result InstallerError Text
  unfolding rescue_vars
  serve_templated mac p (err e) = err e
  serve_templated mac p (ok none) = err no_default
  serve_templated mac p (ok (some raw)) = executed render_rescue (rescue_vars mac p) raw

  unfoldable pub sysrescue_config : Text → Profile → Result InstallerError Text
  unfolding serve_templated source_of read_default
  sysrescue_config mac p = serve_templated mac p (
      source_of read p.rescue true (read_default embedded s.data_dir read (bytes "sysrescue.yaml")))

  unfoldable pub sysrescue_setup : Text → Profile → Result InstallerError Text
  unfolding serve_templated source_of read_default
  sysrescue_setup mac p =
      serve_templated mac p (
        source_of read [] true (read_default embedded s.data_dir read (bytes "sysrescue-setup.sh")))

  unfoldable pub document_for :
      Document → Server → ℕ → Text → Profile → Server × Result InstallerError Text
  unfolding noted preseed kickstart meta_data_for sysrescue_config sysrescue_setup
  document_for preseed_cfg server now mac p = noted server now mac (preseed now mac p)
  document_for kickstart_cfg server now mac p = noted server now mac (kickstart now mac p)
  document_for meta_data server now mac p = (server, ok (meta_data_for p mac))
  document_for sysrescue_yaml server now mac p = (server, sysrescue_config mac p)
  document_for sysrescue_setup_sh server now mac p = (server, sysrescue_setup mac p)

  unfoldable pub serve_for :
      Document → Server → ℕ → Option Text → Option Fleet → Server × Result InstallerError Text
  unfolding document_for
  serve_for doc server now mac none = (server, err not_ready)
  serve_for doc server now none (some f) = (server, err mac_invalid)
  serve_for doc server now (some mac) (some f) =
      document_for doc server now mac (lookup_machine f mac)

  -- The handler of a route.
  unfoldable pub serve_document : Document → Server → ℕ → Text → Server × Result InstallerError Text
  unfolding serve_for
  serve_document doc server now raw =
      if fleet_ready server
      then (if is_empty raw
          then (server, err mac_missing)
          else serve_for doc server now (canonical_mac raw) server.fleet)
      else (server, err not_ready)
