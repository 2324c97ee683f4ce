-- ===== src/Tftp/Tests.antt =====
-- Read requests at concrete inputs, and the theorem about them there.
use pxe_beacon.Base.{
  ◌≡◌, refl, true, false, none, some, Option, Text, bytes, text_eq, has_prefix, replace_byte,
  split_on, push_first,
}
use pxe_beacon.Tftp.{
  IpxeKind, kind_for_leaf, last_element, path_base, trim_slash, is_probe, transferred, serve_body,
  serve_kind, serve_leaf, read_handler,
}
use pxe_beacon.Tftp.Prefixes.{is_leaf}

tftp_code : Unit {0}
unfolding text_eq has_prefix replace_byte split_on push_first kind_for_leaf last_element path_base
    trim_slash is_probe transferred serve_body serve_kind serve_leaf read_handler is_leaf
tftp_code = tt

abbrev binary : IpxeKind → Option Text
binary kind = some (bytes "MZ")

abbrev file : Text
file = bytes "ipxe.efi"

abbrev machine_dir : Text
machine_dir = bytes "52-54-00-00-00-01"

unknown_not_found :
    read_handler none binary true (bytes "pxelinux.0")
    ≡ record { content = none; fails = true; notes = false }
unfolding tftp_code
unknown_not_found = refl

probe_is_a_newline :
    read_handler none binary true (bytes "probe/x")
    ≡ record { content = some (bytes "\n"); fails = false; notes = false }
unfolding tftp_code
probe_is_a_newline = refl
