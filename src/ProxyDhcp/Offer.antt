-- ===== src/ProxyDhcp/Offer.antt =====
-- BuildOffer of internal/proxydhcp/proxydhcp.go.
use pxe_beacon.Base.{
  ℕ, zero, suc, Bool, true, false, not, ◌&&◌, ◌||◌, Option, none, some, List, [], ◌∷◌, ◌++◌,
  if◌then◌else◌, is_empty, is_some, leb, ℤ, pos, negsuc, Text, bytes, text_eq, has_prefix,
  join_with, decimal,
}
use pxe_beacon.Fleet.{lookup_machine}
use pxe_beacon.Tracker.{Event, installer_done, event_eq}
use pxe_beacon.ProxyDhcp.{
  Arch, intel_x86pc, Transport, transport_unknown, transport_tftp, transport_http, MessageType,
  discover, offer, request, ack, Request, Ip, Config, no_stage, firmware_tftp, firmware_http,
  ipxe_script, skip_stage, SkipKind, not_skipped, skip_not_pxe, skip_unsupported_type,
  skip_no_pending, skip_already_deployed, Decision, Reply, OfferError, nil_request,
  bad_advertised_ip, bad_http_port, build_reply, unknown_transport, skip_request, Noted, Outcome,
}
use pxe_beacon.ProxyDhcp.Arches.{ArchProfile, lookup_arch, arch_label}

unfoldable pub default_user_class : Config → Text
default_user_class cfg = if is_empty cfg.ipxe_user_class then bytes "iPXE" else cfg.ipxe_user_class

unfoldable pub is_pxe_vendor_class : Text → Bool
is_pxe_vendor_class s = has_prefix s (bytes "PXEClient") || has_prefix s (bytes "HTTPClient")

unfoldable pub user_class_contains : List Text → Text → Bool
user_class_contains [] want = false
user_class_contains (v ∷ vs) want = text_eq v want || user_class_contains vs want

unfoldable pub select_arch : List Arch → Arch
select_arch [] = intel_x86pc
select_arch (a ∷ archs) = a

-- The zero value of `Decision`. The zero of an architecture is INTEL_X86PC.
abbrev pub no_decision : Decision
no_decision = record {
  client_mac = [];
  vendor_class = [];
  user_class = [];
  archs = [];
  selected_arch = intel_x86pc;
  stage = no_stage;
  transport = transport_unknown;
  boot_file = [];
  next_server = [];
  skip = not_skipped;
  unknown_arch = false;
  is_ipxe_stage = false;
  machine_name = [];
  boot_target = [];
}

abbrev pub failed : Decision → OfferError → Outcome
failed d e = record { reply = none; decision = d; error = some e; noted = none }

abbrev pub skipped : Decision → SkipKind → Outcome
skipped d kind = failed (record d { stage = skip_stage; skip = kind }) skip_request

-- The profile's name and target; without a fleet the target is "menu".
unfoldable pub machine_name : Config → Request → Text
machine_name cfg req = elim cfg.fleet [
  | none ↦ []
  | some f ↦ (lookup_machine f req.client_mac).name
]

unfoldable pub boot_target : Config → Request → Text
boot_target cfg req = elim cfg.fleet [
  | none ↦ bytes "menu"
  | some f ↦ (lookup_machine f req.client_mac).boot
]

-- `machineKnown`
unfoldable pub machine_known : Config → Request → Bool
unfolding machine_name
machine_known cfg req = not (is_empty (machine_name cfg req))

-- The decision as far as the request and the fleet fill it in.
unfoldable pub parsed : Config → Request → Decision
parsed cfg req = record no_decision {
  client_mac = req.client_mac;
  vendor_class = req.class_identifier;
  user_class = join_with 44 req.user_class;
  archs = req.client_arch;
  machine_name = machine_name cfg req;
  boot_target = boot_target cfg req;
}

unfoldable pub calls : Option (Text → Bool) → Text → Bool
calls none mac = false
calls (some pending) mac = pending mac

unfoldable pub was_installed : Option (Text → Event) → Text → Bool
was_installed none mac = false
was_installed (some last_event) mac = event_eq (last_event mac) installer_done

-- The two guards of the firmware stage: why a machine is skipped, if it is.
unfoldable pub guard : Config → Request → Option SkipKind
unfolding machine_known calls was_installed
guard cfg req =
    if machine_known cfg req && not (calls cfg.pending req.client_mac)
    then (if was_installed cfg.last_event req.client_mac
        then some skip_already_deployed
        else if is_some cfg.pending
        then some skip_no_pending
        else none)
    else none

abbrev pub http_url : Ip → ℕ → Text → Text
http_url ip port path = bytes "http://" ++ (ip.text ++ (bytes ":" ++ (decimal port ++ path)))

unfoldable pub answer_type : MessageType → MessageType
answer_type request = ack
answer_type mt = offer

unfoldable pub base_reply : Text → Text → MessageType → Reply
unfolding answer_type
base_reply v4 copied mt = record {
  copied = copied;
  message_type = answer_type mt;
  server_identifier = v4;
  class_identifier = bytes "PXEClient";
  your_ip_is_zero = true;
  server_ip = none;
  boot_file_name = [];
  tftp_server_name = none;
  boot_file_option = none;
}

module _ (arch_string : Arch → Text) (copy : Request → Option Text) (cfg : Config) (ip : Ip)
    (v4 : Text) (port : ℕ) (req : Request) where
  unfoldable pub script_url : Text
  script_url = http_url ip port cfg.ipxe_script_path

  unfoldable pub ipxe_offer : Decision → Reply → Outcome
  unfolding script_url select_arch
  ipxe_offer d reply = record {
    reply = some (record reply { boot_file_name = script_url; boot_file_option = some script_url });
    decision = record d {
      stage = ipxe_script;
      transport = transport_http;
      boot_file = script_url;
      next_server = ip.text;
      selected_arch = select_arch d.archs;
    };
    error = none;
    noted = none;
  }

  unfoldable pub sighting : Arch → Option Noted
  unfolding machine_known arch_label
  sighting a =
      if not (machine_known cfg req) && cfg.notes_sightings
      then some (record {
        mac = req.client_mac;
        arch_label = arch_label arch_string a;
        vendor_class = req.class_identifier;
      })
      else none

  unfoldable pub transport_offer : Decision → Reply → ArchProfile → Transport → Outcome
  unfolding sighting
  transport_offer d reply p transport_tftp = record {
    reply = some (record reply {
      server_ip = some v4;
      boot_file_name = p.boot_file;
      tftp_server_name = some ip.text;
      boot_file_option = some p.boot_file;
    });
    decision = record d { next_server = ip.text; stage = firmware_tftp };
    error = none;
    noted = sighting d.selected_arch;
  }
  transport_offer d reply p transport_http =
      let url = http_url ip port (bytes "/" ++ p.boot_file) in
      record {
        reply = some (record reply {
          boot_file_name = url;
          boot_file_option = some url;
          class_identifier = bytes "HTTPClient";
        });
        decision = record d { next_server = ip.text; boot_file = url; stage = firmware_http };
        error = none;
        noted = sighting d.selected_arch;
      }
  transport_offer d reply p transport_unknown = record (failed d unknown_transport) {
    noted = sighting d.selected_arch;
  }

  abbrev pub assumed_archs : List Arch → List Arch
  assumed_archs [] = intel_x86pc ∷ []
  assumed_archs (a ∷ archs) = a ∷ archs

  unfoldable pub arch_offer : Decision → Reply → ArchProfile × Bool → Outcome
  unfolding transport_offer
  arch_offer d reply (p, known) =
      transport_offer
        (record d { unknown_arch = not known; transport = p.transport; boot_file = p.boot_file })
        reply p p.transport

  unfoldable pub firmware_offer : Decision → Reply → Option SkipKind → Outcome
  unfolding arch_offer lookup_arch select_arch
  firmware_offer d reply (some kind) = skipped d kind
  firmware_offer d reply none =
      let archs = assumed_archs d.archs in
      arch_offer (record d { archs = archs; selected_arch = select_arch archs }) reply
        (lookup_arch (select_arch archs))

  unfoldable pub staged_offer : Decision → Option Text → Outcome
  unfolding ipxe_offer firmware_offer guard base_reply
  staged_offer d none = failed d build_reply
  staged_offer d (some copied) =
      let reply = base_reply v4 copied req.message_type in
      if d.is_ipxe_stage then ipxe_offer d reply else firmware_offer d reply (guard cfg req)

  unfoldable pub pxe_offer : Outcome
  unfolding staged_offer parsed is_pxe_vendor_class user_class_contains default_user_class
  pxe_offer =
      if is_pxe_vendor_class req.class_identifier
      then staged_offer
          (record (parsed cfg req) {
            is_ipxe_stage = user_class_contains req.user_class (default_user_class cfg);
          })
          (copy req)
      else skipped (parsed cfg req) skip_not_pxe

  unfoldable pub typed_offer : MessageType → Outcome
  unfolding pxe_offer
  typed_offer discover = pxe_offer
  typed_offer request = pxe_offer
  typed_offer mt = skipped (parsed cfg req) skip_unsupported_type

module _ (arch_string : Arch → Text) (copy : Request → Option Text) (cfg : Config) where
  unfoldable pub port_offer : Ip → Text → Request → ℤ → Outcome
  unfolding typed_offer
  port_offer ip v4 req (pos zero) = failed no_decision bad_http_port
  port_offer ip v4 req (pos (suc n)) =
      if leb (suc n) 65535
      then typed_offer arch_string copy cfg ip v4 (suc n) req req.message_type
      else failed no_decision bad_http_port
  port_offer ip v4 req (negsuc n) = failed no_decision bad_http_port

  unfoldable pub v4_offer : Ip → Request → Option Text → Outcome
  unfolding port_offer
  v4_offer ip req none = failed no_decision bad_advertised_ip
  v4_offer ip req (some v4) = port_offer ip v4 req cfg.http_port

  unfoldable pub ip_offer : Request → Option Ip → Outcome
  unfolding v4_offer
  ip_offer req none = failed no_decision bad_advertised_ip
  ip_offer req (some ip) = v4_offer ip req ip.v4

  -- `BuildOffer`; a nil request is absent. `copy` builds the reply from the request and may fail.
  unfoldable pub build_offer : Option Request → Outcome
  unfolding ip_offer
  build_offer none = failed no_decision nil_request
  build_offer (some req) = ip_offer req cfg.advertised_ip
