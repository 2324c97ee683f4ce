-- ===== src/Boot/Labels.antt =====
-- labelOf of internal/boot/dispatch.go.
use pxe_beacon.Base.{
  ℕ, ◌≡◌, refl, Bool, true, ◌&&◌, ◌||◌, inl, inr, [], ◌∷◌, ◌==◌, leb, if◌then◌else◌, Bool-cases,
  All, Text, is_empty, replace_byte,
}

unfoldable pub is_label_byte : ℕ → Bool
is_label_byte c =
    (leb b'a' c && leb c b'z')
    || (leb b'A' c && leb c b'Z')
    || (leb b'0' c && leb c b'9')
    || c == b'_'

unfoldable pub label_bytes : Text → Text
label_bytes [] = []
label_bytes (c ∷ id) = (if is_label_byte c then c else b'_') ∷ label_bytes id

unfoldable pub label_of : Text → Text → Text
unfolding label_bytes
label_of mac name =
    b'm' ∷ b'_' ∷ label_bytes (if is_empty name then replace_byte b':' b'_' mac else name)

label_bytes-All : (id : Text) → All (λ c. is_label_byte c ≡ true) (label_bytes id)
unfolding label_bytes is_label_byte
label_bytes-All [] = tt
label_bytes-All (c ∷ id) = elim (Bool-cases (is_label_byte c)) [
  | inl e ↦ rw e (e, label_bytes-All id)
  | inr e ↦ rw e (refl, label_bytes-All id)
]

-- The label of a machine consists of letters, digits and underscores only, whatever its name.
label_of-All : (mac name : Text) → All (λ c. is_label_byte c ≡ true) (label_of mac name)
unfolding label_of is_label_byte
label_of-All mac name = (refl, (refl, label_bytes-All _))
