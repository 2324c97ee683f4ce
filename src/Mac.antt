-- ===== src/Mac.antt =====
-- MAC addresses: CanonicalMAC of internal/fleet/fleet.go, with the parts of Go's standard library
-- that it calls (net.ParseMAC, HardwareAddr.String). A failed parse is `none`.
pub mod Digits
pub mod Canonical
pub mod Hyphens
pub mod Tests
use pxe_beacon.Base.{
  ℕ, zero, suc, ◌+◌, ◌-◌, ◌*◌, ◌/◌, ◌%◌, Bool, true, false, ◌&&◌, ◌||◌, Option, none, some, List,
  [], ◌∷◌, ltb, leb, ◌==◌, if◌then◌else◌, length, Text, remove_byte, byte_at, to_lower, text_eq,
}

-- One hexadecimal digit, as `xtoi` of Go's net package reads it.
unfoldable pub hex_value : ℕ → Option ℕ
hex_value c =
    if leb b'0' c && leb c b'9'
    then some (c - b'0')
    else if leb b'a' c && leb c b'f'
    then some (c - b'a' + 10)
    else if leb b'A' c && leb c b'F'
    then some (c - b'A' + 10)
    else none

infixl 5 ◌>>=◌
abbrev pub ◌>>=◌ {ℓ κ} : {A : Type ℓ} {B : Type κ} → Option A → (A → Option B) → Option B
none >>= f = none
some a >>= f = f a

-- Two digits, as `xtoi2` reads them.
unfoldable pub hex_byte : ℕ → ℕ → Option ℕ
hex_byte h l = do hi ← hex_value h; lo ← hex_value l; some (16 * hi + lo)

abbrev pub cons_byte : ℕ → Option (List ℕ) → Option (List ℕ)
cons_byte b none = none
cons_byte b (some bs) = some (b ∷ bs)

-- The byte groups of the colon and hyphen forms: "hh", or "hh" and the separator before the rest.
unfoldable pub parse_pairs : ℕ → Text → Option (List ℕ)
parse_pairs sep [] = none
parse_pairs sep (h ∷ []) = none
parse_pairs sep (h ∷ l ∷ []) = do b ← hex_byte h l; some (b ∷ [])
parse_pairs sep (h ∷ l ∷ e ∷ rest) =
    let others = parse_pairs sep rest in
    if e == sep then (do b ← hex_byte h l; cons_byte b others) else none

-- The byte groups of the dotted form: "hhhh", or "hhhh" and a dot before the rest.
unfoldable pub parse_quads : Text → Option (List ℕ)
parse_quads (a ∷ b ∷ c ∷ d ∷ []) = do x ← hex_byte a b; y ← hex_byte c d; some (x ∷ y ∷ [])
parse_quads (a ∷ b ∷ c ∷ d ∷ e ∷ rest) =
    let others = parse_quads rest in
    if e == b'.'
    then (do x ← hex_byte a b; y ← hex_byte c d; cons_byte x (cons_byte y others))
    else none
parse_quads _ = none

abbrev is_mac_size : ℕ → Bool
is_mac_size n = n == 6 || n == 8 || n == 20

-- `net.ParseMAC`
unfoldable pub parse_mac : Text → Option (List ℕ)
parse_mac s =
    if ltb (length s) 14
    then none
    else if byte_at s 2 == b':' || byte_at s 2 == b'-'
    then (if (length s + 1) % 3 == 0 && is_mac_size ((length s + 1) / 3)
        then parse_pairs (byte_at s 2) s
        else none)
    else if byte_at s 4 == b'.'
    then (if (length s + 1) % 5 == 0 && is_mac_size (2 * (length s + 1) / 5)
        then parse_quads s
        else none)
    else none

unfoldable pub hex_digit : ℕ → ℕ
hex_digit d = if ltb d 10 then b'0' + d else b'a' + d - 10

-- `HardwareAddr.String`
unfoldable pub mac_string : List ℕ → Text
mac_string [] = []
mac_string (b ∷ []) = hex_digit (b / 16) ∷ hex_digit (b % 16) ∷ []
mac_string (b ∷ c ∷ r) = hex_digit (b / 16) ∷ hex_digit (b % 16) ∷ b':' ∷ mac_string (c ∷ r)

-- `clean[0:2]`, `clean[2:4]`, … with colons between
unfoldable pub with_colons : Text → Text
with_colons (a ∷ b ∷ c ∷ r) = a ∷ b ∷ b':' ∷ with_colons (c ∷ r)
with_colons s = s

-- The bytes of the address: `net.ParseMAC`, and where that fails, the form with no separator.
unfoldable pub mac_bytes : Text → Option (List ℕ)
mac_bytes s = elim (parse_mac s) [
  | some hw ↦ some hw
  | none ↦
      let clean = remove_byte b'_' (remove_byte b' ' s) in
      if length clean == 12 then parse_mac (with_colons clean) else none
]

unfoldable pub canonical_mac : Text → Option Text
canonical_mac [] = none
canonical_mac (b ∷ s) = do
  hw ← mac_bytes (b ∷ s)
  if length hw == 6 then some (to_lower (mac_string hw)) else none

-- Named on an `unfolding` line, this opens all that a test computes with.
unfoldable pub mac_code : Unit {0}
unfolding canonical_mac mac_bytes mac_string to_lower parse_mac with_colons remove_byte parse_pairs
    parse_quads byte_at hex_byte hex_value hex_digit text_eq
mac_code = tt
