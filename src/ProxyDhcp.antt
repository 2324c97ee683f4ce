-- ===== src/ProxyDhcp.antt =====
-- The proxyDHCP decision of internal/proxydhcp: the data of proxydhcp.go. Packets are the fields
-- that the code reads and writes; the packet library is a parameter where it does more.
pub mod Arches
pub mod Offer
pub mod Gate
pub mod Answer
pub mod Sighted
pub mod Tests
use pxe_beacon.Base.{ℕ, Bool, Option, List, ℤ, Text}
use pxe_beacon.Fleet.{Fleet}
use pxe_beacon.Tracker.{Event}

-- The architectures of option 93 that the source names, and all others by their code.
pub data Arch : Type 0 where
  intel_x86pc efi_ia32 efi_x86_64 efi_arm64 efi_x86_64_http efi_arm64_http : Arch
  other_arch : ℕ → Arch

pub data Transport : Type 0 where
  transport_unknown transport_tftp transport_http : Transport

pub data MessageType : Type 0 where
  discover offer request ack : MessageType
  other_type : ℕ → MessageType

-- A request, parsed: `client_mac` is what its hardware address prints as.
pub record Request : Type 0 where
  pub client_mac : Text
  pub class_identifier : Text
  pub user_class : List Text
  pub client_arch : List Arch
  pub message_type : MessageType

-- An address: what it prints as, and `To4`, absent for an address that is not IPv4.
pub record Ip : Type 0 where
  pub text : Text
  pub v4 : Option Text

-- `Config`. A callback that is nil is absent; of `NoteSighting` only this is kept, since what it is
-- called with is part of the outcome.
pub record Config : Type 0 where
  pub advertised_ip : Option Ip
  pub http_port : ℤ
  pub ipxe_script_path : Text
  pub ipxe_user_class : Text
  pub fleet : Option Fleet
  pub pending : Option (Text → Bool)
  pub last_event : Option (Text → Event)
  pub notes_sightings : Bool

-- `no_stage` is the empty string.
pub data Stage : Type 0 where
  no_stage firmware_tftp firmware_http ipxe_script skip_stage : Stage

pub data SkipKind : Type 0 where
  not_skipped skip_not_pxe skip_unsupported_type skip_missing_arch skip_no_pending
        skip_already_deployed :
      SkipKind

-- `Decision`, without the text of the skip reason.
pub record Decision : Type 0 where
  pub client_mac : Text
  pub vendor_class : Text
  pub user_class : Text
  pub archs : List Arch
  pub selected_arch : Arch
  pub stage : Stage
  pub transport : Transport
  pub boot_file : Text
  pub next_server : Text
  pub skip : SkipKind
  pub unknown_arch : Bool
  pub is_ipxe_stage : Bool
  pub machine_name : Text
  pub boot_target : Text

-- A reply: `copied` is what the library takes over from the request, the rest what the code sets.
-- The options 54, 60, 66 and 67 are absent when they are not set.
pub record Reply : Type 0 where
  pub copied : Text
  pub message_type : MessageType
  pub server_identifier : Text
  pub class_identifier : Text
  pub your_ip_is_zero : Bool
  pub server_ip : Option Text
  pub boot_file_name : Text
  pub tftp_server_name : Option Text
  pub boot_file_option : Option Text

pub data OfferError : Type 0 where
  nil_request bad_advertised_ip bad_http_port build_reply unknown_transport skip_request :
      OfferError

-- A call of `NoteSighting`.
pub record Noted : Type 0 where
  pub mac : Text
  pub arch_label : Text
  pub vendor_class : Text

-- What `BuildOffer` returns, and the sighting that it reports.
pub record Outcome : Type 0 where
  pub reply : Option Reply
  pub decision : Decision
  pub error : Option OfferError
  pub noted : Option Noted
