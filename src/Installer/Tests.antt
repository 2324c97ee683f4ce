-- ===== src/Installer/Tests.antt =====
-- Installer documents at concrete inputs, and the theorems about them there.
use pxe_beacon.Base.{
  ℕ, ◌*◌, ◌/◌, ◌^◌, ◌-◌, ◌<◌, ◌≡◌, refl, Bool, true, false, Option, none, some, List, [], ◌∷◌, ◌++◌,
  if◌then◌else◌, arith, All, Text, bytes, text_eq, pos, decimal, replace_byte, lookup, insert, ok,
  all_of,
}
use pxe_beacon.Mac.{mac_code}
use pxe_beacon.Fleet as Fleet
use pxe_beacon.Fleet.{Fleet, menu_profile, lookup_machine, resolved, profile_of}
use pxe_beacon.Tracker.{new_tracker}
use pxe_beacon.Assets.{resolve_override, read_embedded, read_template, read_default}
use pxe_beacon.ProxyDhcp.{efi_x86_64, discover, Request, Config}
use pxe_beacon.ProxyDhcp.Offer.{guard}
use pxe_beacon.Httpd.{Server}
use pxe_beacon.Httpd.Events.{wired}
use pxe_beacon.UserData.{Settings, Vars, user_data}
use pxe_beacon.Installer.Networks.{dotted, wider_network_cidr, mask_size}
use pxe_beacon.Installer.Prefixes.{ipv4, word, mask_of, wider_network_cidr-word}
use pxe_beacon.Installer.{
  PreseedVars, KickstartVars, RescueVars, preseed_cfg, kickstart_cfg, meta_data, source_of,
  is_debian, is_rhel, cloud_init_bridge, kickstart_stub, with_bridge, needs_bridge, noted, bridged,
  preseed_from, preseed, kickstart_from, kickstart, meta_data_for, document_for, serve_for,
  serve_document,
}
use pxe_beacon.Installer.Noted.{serve_document-guard}

installer_code : Unit {0}
unfolding mac_code text_eq lookup insert replace_byte lookup_machine resolved profile_of new_tracker
    resolve_override read_embedded read_template read_default source_of is_debian is_rhel
    with_bridge needs_bridge noted bridged preseed_from preseed kickstart_from kickstart
    meta_data_for document_for serve_for serve_document kickstart_stub
installer_code = tt

abbrev node : Text
node = bytes "52:54:00:00:00:01"

abbrev fleet : Fleet
fleet = record Fleet.empty {
  machines =
      (
        node,
        record menu_profile { boot = bytes "debian-12"; name = bytes "deb"; is_default = false },
      )
      ∷ [];
}

abbrev server : Server
server = record { fleet = some fleet; tracker = some (new_tracker (pos 0)); pending = none }

abbrev settings : Settings
settings = record {
  advertised_ip = bytes "10.69.69.218";
  http_port = pos 8080;
  data_dir = [];
  callback_tokens = none;
}

abbrev hmac : Text → Text → Text
hmac key message = []

abbrev parse_ip : Text → Option (List ℕ)
parse_ip t = some (
    ipv4 (
      if text_eq t (bytes "10.69.69.218") then 10 ∷ 69 ∷ 69 ∷ 218 ∷ [] else 255 ∷ 255 ∷ 0 ∷ 0 ∷ []))

abbrev embedded : Text → Option Text
embedded path = some (bytes "d-i debian-installer/locale string en_US")

abbrev read : Text → Option Text
read path = none

abbrev render_preseed : Text → PreseedVars → Option Text
render_preseed raw vars = some raw

abbrev render_kickstart : Text → KickstartVars → Option Text
render_kickstart raw vars = some raw

abbrev render_rescue : Text → RescueVars → Option Text
render_rescue raw vars = some raw

abbrev render : Text → Vars → Option Text
render raw vars = some raw

abbrev is_map : Text → Bool
is_map raw = true

abbrev body : Text
body =
    bytes "d-i debian-installer/locale string en_US\n"
    ++ cloud_init_bridge (bytes "10.69.69.218") (pos 8080) (bytes "52-54-00-00-00-01")

-- A Debian machine has no kickstart.
kickstart_missing :
    (serve_document hmac parse_ip embedded read render_preseed render_kickstart render_rescue
      settings [] kickstart_cfg server 7 node).1
    ≡ ok (kickstart_stub node (bytes "debian-12"))
unfolding installer_code
kickstart_missing = refl

named_meta_data :
    (serve_document hmac parse_ip embedded read render_preseed render_kickstart render_rescue
      settings [] meta_data server 7 node)
    ≡ (server, ok (bytes "instance-id: deb\nlocal-hostname: deb\n"))
unfolding installer_code
named_meta_data = refl

-- A mask whose ones are not in front counts as one of length 0.
split_mask : mask_size (255 ∷ 0 ∷ 255 ∷ 0 ∷ []) ≡ 0
unfolding mask_size all_of
split_mask = refl

abbrev config : Config
config = record {
  advertised_ip = none;
  http_port = pos 8080;
  ipxe_script_path = bytes "/boot.ipxe";
  ipxe_user_class = [];
  fleet = some fleet;
  pending = none;
  last_event = none;
  notes_sightings = true;
}

abbrev firmware : Request
firmware = record {
  client_mac = node;
  class_identifier = bytes "PXEClient:Arch:00007";
  user_class = [];
  client_arch = efi_x86_64 ∷ [];
  message_type = discover;
}

abbrev render_user_data : Text → Vars → Option Text
render_user_data raw vars = some (raw ++ vars.name)

serve_document-guard_example :
    (guard
        (wired config 9
          (serve_document hmac parse_ip embedded read render_preseed render_kickstart render_rescue
            settings
            (bytes "255.255.0.0")
            preseed_cfg
            server
            7
            (bytes "52-54-00-00-00-01")).0)
        firmware
      ≡ guard (wired config 9 server) firmware)
    × (guard
          (wired config 9
            (user_data hmac read
              (some (bytes "#cloud-config\n"))
              render_user_data
              (λ t. true)
              settings
              server
              7
              (bytes "52-54-00-00-00-01")).0)
          firmware
        ≡ guard (wired config 9 server) firmware)
serve_document-guard_example =
    serve_document-guard hmac parse_ip embedded read render_preseed render_kickstart render_rescue
      settings (bytes "255.255.0.0") server 7 (some (bytes "#cloud-config\n")) render_user_data
      (λ t. true) preseed_cfg (bytes "52-54-00-00-00-01") config 9 firmware

wider_network_cidr-word_example :
    (e f g h : ℕ) × (wider_network_cidr parse_ip settings.advertised_ip (bytes "255.255.0.0")
      ≡ dotted (e ∷ f ∷ g ∷ h ∷ []) ++ (b'/' ∷ decimal 16))
    × (word e f g h ≡ word 10 69 69 218 / 2 ^ (32 - 16) * 2 ^ (32 - 16))
    × All (λ x. x < 256) (e ∷ f ∷ g ∷ h ∷ [])
unfolding text_eq mask_of
wider_network_cidr-word_example =
    wider_network_cidr-word parse_ip settings.advertised_ip (bytes "255.255.0.0") 10 69 69 218 16
      (omega arith) (omega arith) (omega arith) (omega arith) (omega arith) refl refl refl
