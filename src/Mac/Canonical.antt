-- ===== src/Mac/Canonical.antt =====
-- What CanonicalMAC of internal/fleet/fleet.go returns, and that it is idempotent.
use pxe_beacon.Base.{
  ℕ, zero, suc, ◌/◌, ◌%◌, ◌≡◌, refl, List, [], ◌∷◌, none, some, arith, length, All, inl, inr,
  Option-cases, Option, Bool, false, text_eq, Text, byte_at, to_lower, remove_byte,
}
use pxe_beacon.Mac.{parse_pairs, parse_mac, mac_string, with_colons, mac_bytes, canonical_mac}
use pxe_beacon.Mac.Digits.{
  IsByte, IsLowerHex, hex_digit-IsLowerHex, parse_pairs-IsByte, parse_quads-IsByte,
  parse_pairs-mac_string, to_lower-mac_string,
}

-- `n` groups of two lowercase hexadecimal digits with colons between.
abbrev pub IsGroups : ℕ → Text → Type 0
IsGroups (suc zero) (h ∷ l ∷ []) = IsLowerHex h × IsLowerHex l
IsGroups (suc (suc n)) (h ∷ l ∷ c ∷ t) =
    IsLowerHex h × IsLowerHex l × (c ≡ b':') × IsGroups (suc n) t
IsGroups _ _ = ⊥

-- The canonical form, "58:47:ca:70:c7:c9".
abbrev pub IsCanonical : Text → Type 0
IsCanonical = IsGroups 6

mac_string-IsGroups :
    (n : ℕ) (hw : List ℕ) → length hw ≡ suc n → All IsByte hw → IsGroups (suc n) (mac_string hw)
unfolding mac_string
mac_string-IsGroups n [] e h = absurd (omega arith)
mac_string-IsGroups zero (b ∷ []) e h =
    (hex_digit-IsLowerHex (b / 16) (omega arith), hex_digit-IsLowerHex (b % 16) (omega arith))
mac_string-IsGroups (suc n) (b ∷ []) e h = absurd (omega arith)
mac_string-IsGroups zero (b ∷ c ∷ r) e h = absurd (omega arith)
mac_string-IsGroups (suc n) (b ∷ c ∷ r) e h = (
  hex_digit-IsLowerHex (b / 16) (omega arith),
  hex_digit-IsLowerHex (b % 16) (omega arith),
  refl,
  mac_string-IsGroups n (c ∷ r) (omega arith) h.1,
)

parse_mac-IsByte : (s : Text) (hw : List ℕ) → parse_mac s ≡ some hw → All IsByte hw
unfolding parse_mac
parse_mac-IsByte s hw e =
    ground (arith, parse_pairs-IsByte (byte_at s 2) s hw, parse_quads-IsByte s hw)

mac_bytes-IsByte : (s : Text) (hw : List ℕ) → mac_bytes s ≡ some hw → All IsByte hw
unfolding mac_bytes
mac_bytes-IsByte s hw e = ground (
  arith,
  parse_mac-IsByte s hw,
  parse_mac-IsByte (with_colons (remove_byte b'_' (remove_byte b' ' s))) hw,
)

-- A result is the printed form of six bytes.
pub canonical_mac-bytes :
    (s c : Text)
    → canonical_mac s ≡ some c
    → (hw : List ℕ) × (length hw ≡ 6) × All IsByte hw × (c ≡ mac_string hw)
unfolding canonical_mac
canonical_mac-bytes [] c e = cc
canonical_mac-bytes (b ∷ s) c e = elim (Option-cases (mac_bytes (b ∷ s))) [
  | inl bad ↦ absurd (ground arith)
  | inr (hw, found) ↦
      let good = mac_bytes-IsByte (b ∷ s) hw found in
      (hw, ground arith, good, ground (arith, to_lower-mac_string hw good))
]

parse_mac-mac_string :
    (hw : List ℕ) → length hw ≡ 6 → All IsByte hw → parse_mac (mac_string hw) ≡ some hw
parse_mac-mac_string (b0 ∷ b1 ∷ b2 ∷ b3 ∷ b4 ∷ b5 ∷ []) n h =
    parsed (parse_pairs-mac_string b0 (b1 ∷ b2 ∷ b3 ∷ b4 ∷ b5 ∷ []) h)
  where
    parsed :
        parse_pairs b':' (mac_string (b0 ∷ b1 ∷ b2 ∷ b3 ∷ b4 ∷ b5 ∷ []))
          ≡ some (b0 ∷ b1 ∷ b2 ∷ b3 ∷ b4 ∷ b5 ∷ [])
        → parse_mac (mac_string (b0 ∷ b1 ∷ b2 ∷ b3 ∷ b4 ∷ b5 ∷ []))
          ≡ some (b0 ∷ b1 ∷ b2 ∷ b3 ∷ b4 ∷ b5 ∷ [])
    parsed p = unfold parse_mac mac_string byte_at in p
parse_mac-mac_string _ n h = absurd (omega arith)

mac_bytes-nil : mac_bytes [] ≡ none
unfolding mac_bytes parse_mac remove_byte
mac_bytes-nil = refl

-- Six bytes are accepted, and printed.
pub canonical_mac_of_bytes :
    (s : Text) (hw : List ℕ)
    → mac_bytes s ≡ some hw
    → length hw ≡ 6
    → canonical_mac s ≡ some (to_lower (mac_string hw))
unfolding canonical_mac
canonical_mac_of_bytes [] hw e n = cc mac_bytes-nil
canonical_mac_of_bytes (b ∷ s) hw e n = rw e (rw n)

mac_bytes-mac_string :
    (hw : List ℕ) → length hw ≡ 6 → All IsByte hw → mac_bytes (mac_string hw) ≡ some hw
unfolding mac_bytes
mac_bytes-mac_string hw n h = rw (parse_mac-mac_string hw n h, mac_bytes)

-- Whatever spelling is accepted, the result has the canonical form.
pub canonical_mac-IsCanonical : (s c : Text) → canonical_mac s ≡ some c → IsCanonical c
canonical_mac-IsCanonical s c e =
    let (hw, six, good, same) = canonical_mac-bytes s c e in
    rw same (mac_string-IsGroups 5 hw six good)

-- A result canonicalises to itself.
pub canonical_mac_idempotent : (s c : Text) → canonical_mac s ≡ some c → canonical_mac c ≡ some c
canonical_mac_idempotent s c e =
    let (hw, six, good, same) = canonical_mac-bytes s c e in
    let printed =
      canonical_mac_of_bytes (mac_string hw) hw (mac_bytes-mac_string hw six good) six in
    rw same (rw (to_lower-mac_string hw good) at printed)

-- Whether a canonicalised address is there and is `c`.
unfoldable pub names : Option Text → Text → Bool
names none c = false
names (some d) c = text_eq d c

-- Whether `mac` is a spelling of the canonical address `c`.
unfoldable pub spells : Text → Text → Bool
spells mac c = names (canonical_mac mac) c
