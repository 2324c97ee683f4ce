-- ===== src/CallbackToken/Guard.antt =====
-- requireCallbackToken of internal/httpd/httpd.go, before the callbacks of an installer.
use pxe_beacon.Base.{
  ℕ, ◌+◌, ◌*◌, ◌/◌, ◌^◌, ◌<◌, ◌≤◌, ◌≡◌, refl, ap, ◌∙◌, ◌⊎◌, inl, inr, arith, Bool, true, false,
  Option, none, some, [], ◌∷◌, ◌++◌, if◌then◌else◌, Option-cases, Bool-cases, ltb, is_empty,
  add_duration, Text, take,
}
use pxe_beacon.Mac.{canonical_mac}
use pxe_beacon.InstallLog as InstallLog
use pxe_beacon.Httpd.{
  Server, ErrorCode, mac_missing, mac_invalid, callback_token_invalid, Response, accepted, refused,
  handle_install_event,
}
use pxe_beacon.CallbackToken.{TokenError, expired, Signer, epoch, mint, verify}
use pxe_beacon.CallbackToken.Tokens.{IsAccepted, verify-mint, verify_sound}

module _ (hmac : Text → Text → Text) (required : Bool) (now : ℕ) where
  abbrev token_refusal : Option TokenError → Option (ℕ × ErrorCode)
  token_refusal none = none
  token_refusal (some e) = some (403, callback_token_invalid)

  unfoldable pub check_canonical : Signer → Text → Option Text → Option (ℕ × ErrorCode)
  unfolding verify
  check_canonical s token none = some (400, mac_invalid)
  check_canonical s token (some mac) =
      if is_empty token
      then (if required then some (403, callback_token_invalid) else none)
      else token_refusal (verify hmac s now mac token)

  -- `requireCallbackToken`: none lets the request through.
  unfoldable pub check_token : Option Signer → Text → Text → Option (ℕ × ErrorCode)
  unfolding check_canonical
  check_token none raw token = none
  check_token (some s) raw token = check_canonical s token (canonical_mac raw)

  -- POST /autoinstall/{mac}/done
  unfoldable pub guarded_event : Option Signer → Server → Text → Text → Text → Server × Response
  unfolding check_token
  guarded_event tokens s raw token phase = elim (check_token tokens raw token) [
    | none ↦ handle_install_event s now raw phase
    | some (status, code) ↦ (s, refused status code)
  ]

  unfoldable pub log_for : InstallLog.Store → Text → Option Text → InstallLog.Store × Response
  log_for log body none = (log, refused 400 mac_invalid)
  log_for log body (some mac) =
      (InstallLog.append log mac (take InstallLog.max_per_mac body), accepted)

  -- `handleInstallLog` where the log is wired; without one the source answers 404.
  unfoldable pub handle_install_log : InstallLog.Store → Text → Text → InstallLog.Store × Response
  unfolding log_for
  handle_install_log log raw body =
      if is_empty raw then (log, refused 400 mac_missing) else log_for log body (canonical_mac raw)

  -- POST /autoinstall/{mac}/log
  unfoldable pub guarded_log :
      Option Signer → InstallLog.Store → Text → Text → Text → InstallLog.Store × Response
  unfolding check_token handle_install_log
  guarded_log tokens log raw token body = elim (check_token tokens raw token) [
    | none ↦ handle_install_log log raw body
    | some (status, code) ↦ (log, refused status code)
  ]

  -- The machine at the path, and a token that is accepted for it.
  abbrev pub IsAuthentic : Signer → Text → Text → Type 0
  IsAuthentic s raw token =
      (c : Text) × (canonical_mac raw ≡ some c) × IsAccepted hmac s now c token

  check_canonical_sound :
      (s : Signer) (token : Text) (o : Option Text)
      → required ≡ true
      → check_canonical s token o ≡ none
      → (c : Text) × (o ≡ some c) × IsAccepted hmac s now c token
  unfolding check_canonical
  check_canonical_sound s token none must h = absurd (ground arith)
  check_canonical_sound s token (some mac) must h = elim (Bool-cases (is_empty token)) [
    | inl e ↦ absurd (ground arith)
    | inr e ↦ elim (Option-cases (verify hmac s now mac token)) [
      | inl good ↦ (mac, refl, verify_sound hmac s now mac token good)
      | inr (bad, refused_) ↦ absurd (ground arith)
    ]
  ]

  check_token_sound :
      (s : Signer) (raw token : Text)
      → required ≡ true
      → check_token (some s) raw token ≡ none
      → IsAuthentic s raw token
  unfolding check_token
  check_token_sound s raw token must h = check_canonical_sound s token (canonical_mac raw) must h

-- Where callback tokens are required, a callback to /done or to /log changes nothing unless its
-- token is accepted for the machine at its path: signed with the secret for this machine and an
-- expiry that has not come.
pub guarded-IsAuthentic :
    (hmac : Text → Text → Text) (now : ℕ) (s : Signer) (server : Server) (log : InstallLog.Store)
    (raw token phase body : Text)
    → (((guarded_event hmac true now (some s) server raw token phase).0 ≡ server)
        × ((guarded_log hmac true now (some s) log raw token body).0 ≡ log))
      ⊎ IsAuthentic hmac true now s raw token
unfolding guarded_event guarded_log
guarded-IsAuthentic hmac now s server log raw token phase body =
    elim (Option-cases (check_token hmac true now (some s) raw token)) [
      | inl passed ↦ inr (check_token_sound hmac true now s raw token refl passed)
      | inr (refusal, stopped) ↦
          inl (rw (guarded_event, stopped) refl, rw (guarded_log, stopped) refl)
    ]

append-nonempty : (a b : Text) (x : ℕ) → is_empty (a ++ (x ∷ b)) ≡ false
append-nonempty [] b x = refl
append-nonempty (y ∷ a) b x = refl

mint-nonempty :
    (hmac : Text → Text → Text) (s : Signer) (now : ℕ) (c : Text)
    → is_empty (mint hmac s now c) ≡ false
unfolding mint
mint-nonempty hmac s now c = append-nonempty _ _ b'.'

-- A callback to /done with the token that was minted for its machine is handled as if there was no
-- guard, before the expiry of the token, whether tokens are required or not.
pub guarded_event_minted :
    (hmac : Text → Text → Text) (required : Bool) (minted now : ℕ) (s : Signer) (server : Server)
    (raw c phase : Text)
    → ((key message : Text) → is_empty (hmac key message) ≡ false)
    → epoch ≤ add_duration minted s.ttl / 1000000000
    → add_duration minted s.ttl / 1000000000 < epoch + 2 ^ 63
    → canonical_mac raw ≡ some c
    → now < add_duration minted s.ttl / 1000000000 * 1000000000
    → guarded_event hmac required now (some s) server raw (mint hmac s minted c) phase
      ≡ handle_install_event server now raw phase
unfolding guarded_event check_token check_canonical
guarded_event_minted hmac required minted now s server raw c phase nonempty late fits known alive =
    let t = add_duration minted s.ttl in
    let token = mint hmac s minted c in
    let soon : ltb now (t / 1000000000 * 1000000000) ≡ true = ground (arith, alive) in
    let good : verify hmac s now c token ≡ none =
      verify-mint hmac s minted now c nonempty late fits
      ∙ ap (λ b. if b then none else some expired) soon in
    let passed : check_token hmac required now (some s) raw token ≡ none =
      rw (check_token, known, check_canonical, mint-nonempty hmac s minted c, good) refl in
    rw (guarded_event, passed) refl
