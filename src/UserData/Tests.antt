-- ===== src/UserData/Tests.antt =====
-- A served cloud-init document at concrete inputs, and the theorem about it there.
use pxe_beacon.Base.{
  ℕ, Bool, true, false, none, some, Option, [], ◌∷◌, Text, bytes, text_eq, pos, replace_byte,
  lookup,
}
use pxe_beacon.Mac.{mac_code}
use pxe_beacon.FilePaths.{path_code}
use pxe_beacon.Fleet as Fleet
use pxe_beacon.Fleet.{Fleet, menu_profile, lookup_machine, resolved, profile_of}
use pxe_beacon.Tracker.{new_tracker}
use pxe_beacon.CallbackToken.{Signer}
use pxe_beacon.Httpd.{Server}
use pxe_beacon.UserData.{
  Settings, Vars, override_path, mint_callback_token, machine_override, with_phone_home, source_of,
  rendered, document, noted, user_data_for, user_data,
}

user_data_code : Unit {0}
unfolding mac_code path_code text_eq lookup replace_byte lookup_machine resolved profile_of
    new_tracker override_path machine_override source_of rendered document noted user_data_for
    user_data
user_data_code = tt

abbrev node : Text
node = bytes "52:54:00:00:00:01"

abbrev fleet : Fleet
fleet = record Fleet.empty {
  machines =
      (
        node,
        record menu_profile {
          boot = bytes "ubuntu-24.04";
          name = bytes "kube";
          is_default = false;
        },
      )
      ∷ [];
}

abbrev hmac : Text → Text → Text
hmac key message = 171 ∷ 205 ∷ []

abbrev signer : Signer
signer = record { secret = bytes "s3cret"; ttl = pos 3600000000000 }

abbrev settings : Settings
settings = record {
  advertised_ip = bytes "10.0.0.2";
  http_port = pos 8080;
  data_dir = [];
  callback_tokens = some signer;
}

abbrev server : Server
server = record { fleet = some fleet; tracker = some (new_tracker (pos 0)); pending = none }

abbrev read : Text → Option Text
read path = none

abbrev render : Text → Vars → Option Text
render raw vars = some raw

abbrev is_map : Text → Bool
is_map t = true

-- A time in the year 2026, and one ten minutes later.
abbrev start : ℕ
start = 63903000000123456789

abbrev later : ℕ
later = 63903000600123456789

abbrev config : Text
config = bytes "#cloud-config\n"

abbrev body : Text
body =
    with_phone_home hmac read (some config) render is_map settings node
      (mint_callback_token hmac settings start node) config
