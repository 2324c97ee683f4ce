-- ===== src/CallbackToken/Tokens.antt =====
-- internal/callbacktoken/callbacktoken.go: which tokens Verify accepts.
use pxe_beacon.Base.{
  ℕ, ◌+◌, ◌-◌, ◌*◌, ◌/◌, ◌^◌, ◌<◌, ◌≤◌, ◌≡◌, refl, sym, ap, subst, inl, inr, arith, true, false,
  ◌||◌, Option, none, some, [], ◌∷◌, ◌++◌, if◌then◌else◌, Bool-cases, Option-cases, ltb, is_empty,
  ℤ, pos, add_duration, Text, text_eq, text_eq_iff, text_eq_refl, int_text, decimal, parse_int,
  parse_int-decimal, are_digits, are_digits-decimal, is_empty-decimal,
}
use pxe_beacon.Fleet.Txn.{hex_text}
use pxe_beacon.CallbackToken.{
  expired, Signer, epoch, unix, before_unix, cut, sign, mint, verify_signed, verify_parts, verify,
}

cut-append : (a b : Text) → are_digits a ≡ true → cut (a ++ (b'.' ∷ b)) ≡ some (a, b)
unfolding cut are_digits
cut-append [] b h = refl
cut-append (c ∷ a) b h = ground (arith, cut-append a b)

-- The token is its two parts with the full stop between.
cut-some : (t a b : Text) → cut t ≡ some (a, b) → t ≡ a ++ (b'.' ∷ b)
unfolding cut
cut-some [] a b h = absurd (ground arith)
cut-some (c ∷ t) a b h = elim (Option-cases (cut t)) [
  | inl e ↦ ground arith
  | inr ((a', b'), e) ↦ ground (arith, cut-some t a' b' e)
]

unix_after : (t : ℕ) → epoch ≤ t / 1000000000 → unix t ≡ pos (t / 1000000000 - epoch)
unfolding unix
unix_after t h = ground arith

hex_text-nonempty : (t : Text) → is_empty t ≡ false → is_empty (hex_text t) ≡ false
unfolding hex_text
hex_text-nonempty [] h = absurd (ground arith)
hex_text-nonempty (b ∷ t) h = refl

-- A time before the expiry, which counts whole seconds.
before_unix_after :
    (now t : ℕ)
    → epoch ≤ t / 1000000000
    → before_unix now (pos (t / 1000000000 - epoch)) ≡ ltb now (t / 1000000000 * 1000000000)
unfolding before_unix
before_unix_after now t h = ap (λ k. ltb now (k * 1000000000)) (omega arith)

module _ (hmac : Text → Text → Text) (s : Signer) where
  verify_signed_own :
      (now : ℕ) (canon : Text) (exp : ℤ)
      → verify_signed hmac s now canon (sign hmac s canon exp) (some exp)
        ≡ (if before_unix now exp then none else some expired)
  unfolding verify_signed
  verify_signed_own now canon exp = rw (text_eq_refl (sign hmac s canon exp)) (ground arith)

  verify_minted :
      (now : ℕ) (canon : Text) (e : ℕ)
      → e < 2 ^ 63
      → ((key message : Text) → is_empty (hmac key message) ≡ false)
      → verify hmac s now canon (int_text (pos e) ++ (b'.' ∷ sign hmac s canon (pos e)))
        ≡ (if before_unix now (pos e) then none else some expired)
  unfolding verify verify_parts int_text
  verify_minted now canon e small h =
      let signed : is_empty (sign hmac s canon (pos e)) ≡ false =
        unfold sign in hex_text-nonempty _ (h _ _) in
      rw
        (
          cut-append (decimal e) (sign hmac s canon (pos e)) (are_digits-decimal e),
          is_empty-decimal e,
          signed,
          parse_int-decimal e small,
        )
        (verify_signed_own now canon (pos e))

  -- What an accepted token consists of.
  unfoldable pub IsAccepted : ℕ → Text → Text → Type 0
  IsAccepted now canon token =
      (printed : Text) × (exp : ℤ) × (token ≡ printed ++ (b'.' ∷ sign hmac s canon exp))
      × (parse_int printed ≡ some exp)
      × (before_unix now exp ≡ true)

  verify_signed_sound :
      (now : ℕ) (canon printed signature : Text) (o : Option ℤ)
      → parse_int printed ≡ o
      → verify_signed hmac s now canon signature o ≡ none
      → IsAccepted now canon (printed ++ (b'.' ∷ signature))
  unfolding verify_signed IsAccepted
  verify_signed_sound now canon printed signature none e h = absurd (ground arith)
  verify_signed_sound now canon printed signature (some exp) e h =
      elim (Bool-cases (text_eq signature (sign hmac s canon exp))) [
        | inl same ↦ (
          printed,
          exp,
          ap (λ (t : Text). printed ++ (b'.' ∷ t))
              ((text_eq_iff signature (sign hmac s canon exp)).0 same),
          e,
          ground arith,
        )
        | inr other ↦ absurd (ground arith)
      ]

  verify_parts_sound :
      (now : ℕ) (canon token : Text) (o : Option (Text × Text))
      → cut token ≡ o
      → verify_parts hmac s now canon o ≡ none
      → IsAccepted now canon token
  unfolding verify_parts
  verify_parts_sound now canon token none e h = absurd (ground arith)
  verify_parts_sound now canon token (some (printed, signature)) e h =
      elim (Bool-cases (is_empty printed || is_empty signature)) [
        | inl bad ↦ absurd (ground arith)
        | inr good ↦ subst (IsAccepted now canon) (sym (cut-some token printed signature e)) (
            verify_signed_sound now canon printed signature (parse_int printed) refl (ground arith))
      ]

-- Before its expiry, which is the time of minting and the lifetime, rounded down to whole seconds,
-- a token that was minted for a machine is accepted for this machine; from then on it is refused as
-- expired. The code of HMAC is not empty, and the expiry lies after 1969 and within 64 bits.
pub verify-mint :
    (hmac : Text → Text → Text) (s : Signer) (now now' : ℕ) (canon : Text)
    → ((key message : Text) → is_empty (hmac key message) ≡ false)
    → epoch ≤ add_duration now s.ttl / 1000000000
    → add_duration now s.ttl / 1000000000 < epoch + 2 ^ 63
    → verify hmac s now' canon (mint hmac s now canon)
      ≡ (if ltb now' (add_duration now s.ttl / 1000000000 * 1000000000) then none else some expired)
unfolding mint
verify-mint hmac s now now' canon nonempty late fits =
    let t = add_duration now s.ttl in
    rw (unix_after t late, sym (before_unix_after now' t late))
      (verify_minted hmac s now' canon (t / 1000000000 - epoch) (omega arith) nonempty)

-- Every token that is accepted for a machine is a printed expiry that has not come, a full stop,
-- and the signature, with the secret, of this machine and this expiry.
pub verify_sound :
    (hmac : Text → Text → Text) (s : Signer) (now : ℕ) (canon token : Text)
    → verify hmac s now canon token ≡ none
    → IsAccepted hmac s now canon token
unfolding verify
verify_sound hmac s now canon token h = verify_parts_sound hmac s now canon token (cut token) refl h
