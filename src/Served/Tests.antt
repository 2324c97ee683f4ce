-- ===== src/Served/Tests.antt =====
-- Files at concrete inputs, and the theorems about them there.
use pxe_beacon.Base.{
  ◌≡◌, refl, subst, if◌then◌else◌, true, false, Option, none, some, [], ◌∷◌, all_of, Text, bytes,
  text_eq, lookup, pos, has_prefix, join_with,
}
use mathlib.Core.Option.{some-injective}
use pxe_beacon.FilePaths.{is_abs, path_code}
use pxe_beacon.ProxyDhcp.{Arch, efi_x86_64, discover, Request, Ip, Config, Reply}
use pxe_beacon.ProxyDhcp.Arches.{arch_table, lookup_arch, arch_label}
use pxe_beacon.ProxyDhcp.Offer.{
  is_pxe_vendor_class, user_class_contains, default_user_class, machine_name, machine_known, guard,
  parsed, base_reply, answer_type, sighting, transport_offer, arch_offer, firmware_offer,
  staged_offer, pxe_offer, typed_offer, port_offer, v4_offer, ip_offer, build_offer, boot_target,
  select_arch,
}
use pxe_beacon.Cache.{safe_target_name, safe_asset_path, join_below, asset_path}
use pxe_beacon.Served.{
  failed, sent, kind_for_path, handle_script, serve_ipxe, handle_file, handle_debug_autoexec,
  Opened, absent, opened, asset_response, new_cache, asset_at, asset_in, handle_asset,
}
use pxe_beacon.Served.Contained.{IsBelow, handle_asset-IsBelow}

served_code : Unit {0}
unfolding path_code text_eq lookup has_prefix failed sent kind_for_path handle_script serve_ipxe
    handle_file handle_debug_autoexec asset_response new_cache asset_at asset_in handle_asset
    safe_target_name safe_asset_path join_below asset_path all_of
served_code = tt

offer_code : Unit {0}
unfolding has_prefix join_with arch_table lookup_arch arch_label default_user_class
    is_pxe_vendor_class user_class_contains machine_name machine_known guard parsed base_reply
    answer_type sighting transport_offer arch_offer firmware_offer staged_offer pxe_offer
    typed_offer port_offer v4_offer ip_offer build_offer boot_target select_arch text_eq
offer_code = tt

abbrev abs : Text → Option Text
abs path = some (bytes "/data")

abs_absolute : (path root : Text) → abs path ≡ some root → is_abs root ≡ true
unfolding is_abs has_prefix
abs_absolute path root h = subst (λ r. is_abs r ≡ true) (some-injective (bytes "/data") root h) refl

abbrev kernel : Text
kernel = bytes "/data/systemrescue/sysresccd/boot/x86_64/vmlinuz"

abbrev open_file : Text → Opened
open_file path = if text_eq path kernel then opened (bytes "MZ") else absent

abbrev nested : Text
nested = bytes "sysresccd/boot/x86_64/vmlinuz"

nested_sent :
    handle_asset abs true open_file (bytes "/data") (bytes "systemrescue") nested false
    ≡ record { status = 200; content_length = some 2; body = some (bytes "MZ"); note = none }
unfolding served_code
nested_sent = refl

parent_refused :
    handle_asset abs true open_file (bytes "/data") (bytes "..") (bytes "etc/passwd") false
    ≡ failed 400
unfolding served_code
parent_refused = refl

nested_body :
    (handle_asset abs true open_file (bytes "/data") (bytes "systemrescue") nested false).body
    ≡ some (bytes "MZ")
unfolding served_code
nested_body = refl

handle_asset-IsBelow_example :
    (root : Text) × (abs (bytes "/data") ≡ some root)
    × IsBelow abs true open_file root (bytes "systemrescue") nested (bytes "MZ")
handle_asset-IsBelow_example =
    handle_asset-IsBelow abs true open_file (bytes "/data") (bytes "systemrescue") nested
      (bytes "MZ") false abs_absolute nested_body

abbrev arch_string : Arch → Text
arch_string a = bytes "unknown"

abbrev copy : Request → Option Text
copy req = some (bytes "xid")

abbrev server : Ip
server = record { text = bytes "10.0.0.2"; v4 = some (bytes "10.0.0.2") }

-- Without a fleet every machine is answered.
abbrev config : Config
config = record {
  advertised_ip = some server;
  http_port = pos 8080;
  ipxe_script_path = bytes "/boot.ipxe";
  ipxe_user_class = [];
  fleet = none;
  pending = none;
  last_event = none;
  notes_sightings = false;
}

abbrev firmware : Request
firmware = record {
  client_mac = bytes "52:54:00:00:00:01";
  class_identifier = bytes "PXEClient:Arch:00007";
  user_class = [];
  client_arch = efi_x86_64 ∷ [];
  message_type = discover;
}

abbrev reply : Reply
reply = record (base_reply (bytes "10.0.0.2") (bytes "xid") discover) {
  server_ip = some (bytes "10.0.0.2");
  boot_file_name = bytes "snponly.efi";
  tftp_server_name = some (bytes "10.0.0.2");
  boot_file_option = some (bytes "snponly.efi");
}
