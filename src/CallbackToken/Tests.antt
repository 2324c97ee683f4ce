-- ===== src/CallbackToken/Tests.antt =====
-- Tokens and callbacks at concrete inputs, and the theorems about them there.
use pxe_beacon.Base.{
  ℕ, ◌+◌, ◌*◌, ◌/◌, ◌%◌, ◌≡◌, ◌⊎◌, refl, true, false, none, some, [], ◌∷◌, if◌then◌else◌, is_empty,
  Text, bytes, text_eq, pos, ltb, add_duration, arith, parse_int, parse_digits, int64_of,
  are_digits, value_onto, decimal, digits_onto, int_text,
}
use pxe_beacon.Mac.{canonical_mac, mac_code}
use pxe_beacon.InstallLog as InstallLog
use pxe_beacon.Fleet.Txn.{hex_text}
use pxe_beacon.Httpd.{Server}
use pxe_beacon.CallbackToken.{
  malformed, expired, mismatch, Signer, unix, before_unix, cut, sign, mint, verify_signed,
  verify_parts, verify,
}
use pxe_beacon.CallbackToken.Tokens.{verify-mint}
use pxe_beacon.CallbackToken.Guard.{guarded_event, guarded_log, IsAuthentic, guarded-IsAuthentic}

token_code : Unit {0}
unfolding mac_code text_eq parse_int parse_digits int64_of are_digits value_onto decimal digits_onto
    int_text hex_text unix before_unix cut sign mint verify_signed verify_parts verify
    InstallLog.empty
token_code = tt

-- A keyed code of two bytes.
abbrev hmac : Text → Text → Text
hmac key message = byte_sum key % 256 ∷ byte_sum message % 256 ∷ []
  where
    byte_sum : Text → ℕ
    byte_sum [] = 7
    byte_sum (b ∷ s) = b + 31 * byte_sum s

hmac-nonempty : (key message : Text) → is_empty (hmac key message) ≡ false
hmac-nonempty key message = refl

abbrev signer : Signer
signer = record { secret = bytes "s3cret"; ttl = pos 3600000000000 }

abbrev node : Text
node = bytes "52:54:00:00:00:01"

-- A time in the year 2026, and one ten minutes later.
abbrev start : ℕ
start = 63903000000123456789

abbrev later : ℕ
later = 63903000600123456789

abbrev token : Text
token = mint hmac signer start node

node_known : canonical_mac node ≡ some node
unfolding mac_code
node_known = refl

other_refused : verify hmac signer later (bytes "52:54:00:00:00:02") token ≡ some mismatch
unfolding token_code
other_refused = refl

no_stop_refused : verify hmac signer later node (bytes "12345") ≡ some malformed
unfolding token_code
no_stop_refused = refl

verify-mint_example : verify hmac signer later node token ≡ (
    if ltb later (add_duration start signer.ttl / 1000000000 * 1000000000)
    then none
    else some expired)
verify-mint_example =
    verify-mint hmac signer start later node hmac-nonempty (omega arith) (omega arith)

abbrev server : Server
server = record { fleet = none; tracker = none; pending = none }

guarded-IsAuthentic_example :
    (((guarded_event hmac true later (some signer) server node token (bytes "done")).0 ≡ server)
      × ((guarded_log hmac true later (some signer) InstallLog.empty node token (bytes "dmesg")).0
          ≡ InstallLog.empty))
    ⊎ IsAuthentic hmac true later signer node token
guarded-IsAuthentic_example =
    guarded-IsAuthentic hmac later signer server InstallLog.empty node token (bytes "done")
      (bytes "dmesg")
