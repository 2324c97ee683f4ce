-- ===== src/Mac/Hyphens.antt =====
-- The form of an address in URLs, with hyphens for colons.
use pxe_beacon.Base.{
  ℕ, ◌/◌, ◌%◌, ◌<◌, ◌==◌, ◌≡◌, false, some, List, [], ◌∷◌, arith, length, All, Text, byte_at,
  replace_byte,
}
use pxe_beacon.Mac.{hex_digit, parse_pairs, parse_mac, mac_string, mac_bytes, canonical_mac}
use pxe_beacon.Mac.Digits.{IsByte, hex_byte-hex_digit, to_lower-mac_string}
use pxe_beacon.Mac.Canonical.{canonical_mac-bytes, canonical_mac_of_bytes}

hex_digit-colon : (d : ℕ) → d < 16 → (hex_digit d == b':') ≡ false
unfolding hex_digit
hex_digit-colon d h = ground arith

-- What the printed bytes look like with hyphens.
replace_byte-mac_string :
    (b c : ℕ) (r : List ℕ)
    → All IsByte (b ∷ c ∷ r)
    → replace_byte b':' b'-' (mac_string (b ∷ c ∷ r))
      ≡ hex_digit (b / 16) ∷ hex_digit (b % 16) ∷ b'-' ∷ replace_byte b':' b'-' (mac_string (c ∷ r))
unfolding mac_string replace_byte
replace_byte-mac_string b c r h =
    rw (hex_digit-colon (b / 16) (omega arith), hex_digit-colon (b % 16) (omega arith))

replace_byte-last :
    (b : ℕ)
    → All IsByte (b ∷ [])
    → replace_byte b':' b'-' (mac_string (b ∷ [])) ≡ hex_digit (b / 16) ∷ hex_digit (b % 16) ∷ []
unfolding mac_string replace_byte
replace_byte-last b h =
    rw (hex_digit-colon (b / 16) (omega arith), hex_digit-colon (b % 16) (omega arith))

parse_pairs-hyphens :
    (b : ℕ) (bs : List ℕ)
    → All IsByte (b ∷ bs)
    → parse_pairs b'-' (replace_byte b':' b'-' (mac_string (b ∷ bs))) ≡ some (b ∷ bs)
unfolding parse_pairs
parse_pairs-hyphens b [] h = rw (replace_byte-last b h, hex_byte-hex_digit b h.0)
parse_pairs-hyphens b (c ∷ r) h =
    rw (replace_byte-mac_string b c r h, hex_byte-hex_digit b h.0, parse_pairs-hyphens c r h.1)

parse_mac-hyphens :
    (hw : List ℕ)
    → length hw ≡ 6
    → All IsByte hw
    → parse_mac (replace_byte b':' b'-' (mac_string hw)) ≡ some hw
unfolding parse_mac mac_string replace_byte byte_at
parse_mac-hyphens (b0 ∷ b1 ∷ b2 ∷ b3 ∷ b4 ∷ b5 ∷ []) n h =
    parse_pairs-hyphens b0 (b1 ∷ b2 ∷ b3 ∷ b4 ∷ b5 ∷ []) h
parse_mac-hyphens _ n h = absurd (omega arith)

mac_bytes-hyphens :
    (hw : List ℕ)
    → length hw ≡ 6
    → All IsByte hw
    → mac_bytes (replace_byte b':' b'-' (mac_string hw)) ≡ some hw
unfolding mac_bytes
mac_bytes-hyphens hw n h = rw (parse_mac-hyphens hw n h, mac_bytes)

-- The form with hyphens of a canonical address canonicalises to this address.
pub canonical_mac-hyphens :
    (s c : Text) → canonical_mac s ≡ some c → canonical_mac (replace_byte b':' b'-' c) ≡ some c
canonical_mac-hyphens s c e =
    let (hw, six, good, same) = canonical_mac-bytes s c e in
    let read =
      canonical_mac_of_bytes (replace_byte b':' b'-' (mac_string hw)) hw
        (mac_bytes-hyphens hw six good) six in
    rw same (rw (to_lower-mac_string hw good) at read)
