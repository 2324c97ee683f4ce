-- ===== src/Mac/Digits.antt =====
-- Reading and printing hexadecimal digits and byte groups.
use pxe_beacon.Base.{
  ℕ, ◌/◌, ◌%◌, ◌≤◌, ◌<◌, ◌≡◌, refl, ◌⊎◌, List, [], ◌∷◌, Option, none, some, arith, Option-cases,
  inl, inr, All, Text, lower_byte, to_lower,
}
use pxe_beacon.Mac.{
  hex_value, hex_byte, parse_pairs, parse_quads, cons_byte, hex_digit, mac_string, ◌>>=◌,
}

abbrev pub IsByte : ℕ → Type 0
IsByte b = b < 256

abbrev pub IsLowerHex : ℕ → Type 0
IsLowerHex c = ((b'0' ≤ c) × (c ≤ b'9')) ⊎ ((b'a' ≤ c) × (c ≤ b'f'))

hex_value-lt : (c : ℕ) {v : ℕ} → hex_value c ≡ some v → v < 16
unfolding hex_value
hex_value-lt c h = ground arith

pub hex_byte-IsByte : (h l : ℕ) {b : ℕ} → hex_byte h l ≡ some b → IsByte b
unfolding hex_byte
hex_byte-IsByte h l e = grind (arith, hex_value-lt)

hex_value-hex_digit : (d : ℕ) → d < 16 → hex_value (hex_digit d) ≡ some d
unfolding hex_value hex_digit
hex_value-hex_digit d h = ground arith

pub hex_byte-hex_digit :
    (b : ℕ) → IsByte b → hex_byte (hex_digit (b / 16)) (hex_digit (b % 16)) ≡ some b
unfolding hex_byte
hex_byte-hex_digit b h =
    rw (hex_value-hex_digit (b / 16) (omega arith), hex_value-hex_digit (b % 16) (omega arith))
      (ground arith)

pub hex_digit-IsLowerHex : (d : ℕ) → d < 16 → IsLowerHex (hex_digit d)
unfolding hex_digit
hex_digit-IsLowerHex d h = ground arith

module _ (others : Option (List ℕ)) (hw : List ℕ)
    (tail-IsByte : (bs : List ℕ) → others ≡ some bs → All IsByte bs) where
  group-IsByte :
      (m : Option ℕ)
      → ((b : ℕ) → m ≡ some b → IsByte b)
      → (m >>= λ b. cons_byte b others) ≡ some hw
      → All IsByte hw
  group-IsByte none f e = cc
  group-IsByte (some b) f e = elim (Option-cases others) [
    | inl gone ↦ absurd (ground arith)
    | inr (bs, found) ↦
        let same : b ∷ bs ≡ hw = ground arith in rw (← same) (f b refl, tail-IsByte bs found)
  ]

-- Every parse gives bytes.
pub parse_pairs-IsByte :
    (sep : ℕ) (s : Text) (hw : List ℕ) → parse_pairs sep s ≡ some hw → All IsByte hw
unfolding parse_pairs
parse_pairs-IsByte sep [] hw e = cc
parse_pairs-IsByte sep (h ∷ []) hw e = cc
parse_pairs-IsByte sep (h ∷ l ∷ []) hw e = grind (arith, hex_byte-IsByte h l)
parse_pairs-IsByte sep (h ∷ l ∷ c ∷ rest) hw e = ground (
  arith,
  group-IsByte (parse_pairs sep rest) hw
      (λ (bs : List ℕ) (p : parse_pairs sep rest ≡ some bs). parse_pairs-IsByte sep rest bs p)
      (hex_byte h l) (λ (b : ℕ) (p : hex_byte h l ≡ some b). hex_byte-IsByte h l p),
)

pub parse_quads-IsByte : (s : Text) (hw : List ℕ) → parse_quads s ≡ some hw → All IsByte hw
unfolding parse_quads
parse_quads-IsByte (a ∷ b ∷ c ∷ d ∷ []) hw e = grind (arith, hex_byte-IsByte)
parse_quads-IsByte (a ∷ b ∷ c ∷ d ∷ f ∷ rest) hw e =
    grind (arith, hex_byte-IsByte, parse_quads-IsByte rest)
parse_quads-IsByte _ hw e = cc

-- Printing a byte list and reading it back.
pub parse_pairs-mac_string :
    (b : ℕ) (bs : List ℕ)
    → All IsByte (b ∷ bs)
    → parse_pairs b':' (mac_string (b ∷ bs)) ≡ some (b ∷ bs)
unfolding parse_pairs mac_string
parse_pairs-mac_string b [] h = rw (hex_byte-hex_digit b h.0)
parse_pairs-mac_string b (c ∷ r) h = rw (hex_byte-hex_digit b h.0, parse_pairs-mac_string c r h.1)

lower_byte-hex_digit : (d : ℕ) → d < 16 → lower_byte (hex_digit d) ≡ hex_digit d
unfolding hex_digit lower_byte
lower_byte-hex_digit d h = ground arith

pub to_lower-mac_string : (hw : List ℕ) → All IsByte hw → to_lower (mac_string hw) ≡ mac_string hw
unfolding to_lower mac_string
to_lower-mac_string [] h = refl
to_lower-mac_string (b ∷ []) h =
    rw (lower_byte-hex_digit (b / 16) (omega arith), lower_byte-hex_digit (b % 16) (omega arith))
to_lower-mac_string (b ∷ c ∷ r) h = rw (
  lower_byte-hex_digit (b / 16) (omega arith),
  lower_byte-hex_digit (b % 16) (omega arith),
  to_lower-mac_string (c ∷ r) h.1,
)
