-- ===== src/CallbackToken.antt =====
-- internal/callbacktoken/callbacktoken.go: the tokens that authenticate an installer's callbacks.
pub mod Tokens
pub mod Guard
pub mod Tests
use pxe_beacon.Base.{
  ℕ, zero, suc, ◌+◌, ◌-◌, ◌*◌, ◌/◌, ◌%◌, ◌==◌, Bool, true, false, ◌||◌, not, Option, none, some,
  List, [], ◌∷◌, ◌++◌, if◌then◌else◌, ltb, is_empty, ℤ, pos, negsuc, add_duration, Text, bytes,
  text_eq, int_text, parse_int,
}
use pxe_beacon.Mac.{hex_digit}
use pxe_beacon.Fleet.Txn.{hex_text}

pub data TokenError : Type 0 where
  malformed expired mismatch : TokenError

-- `Signer`, without its clock.
pub record Signer : Type 0 where
  pub secret : Text
  pub ttl : ℤ

-- The seconds from the zero time, the first of January of the year 1, to the Unix epoch.
abbrev pub epoch : ℕ
epoch = 62135596800

-- `t.Unix()`
unfoldable pub unix : ℕ → ℤ
unix t =
    let seconds = t / 1000000000 in
    if ltb seconds epoch then negsuc (epoch - seconds - 1) else pos (seconds - epoch)

-- `now.Before(time.Unix(exp, 0))`
unfoldable pub before_unix : ℕ → ℤ → Bool
before_unix now (pos e) = ltb now ((epoch + e) * 1000000000)
before_unix now (negsuc e) = ltb now ((epoch - (e + 1)) * 1000000000)

-- The texts before and after the first full stop.
unfoldable pub cut : Text → Option (Text × Text)
cut [] = none
cut (c ∷ s) =
    let rest = cut s in
    if c == b'.'
    then some ([], s)
    else elim rest [ none ↦ none | some parts ↦ some (c ∷ parts.0, parts.1) ]

-- `hmac secret message` is HMAC-SHA256.
module _ (hmac : Text → Text → Text) (s : Signer) where
  -- `sign`
  unfoldable pub sign : Text → ℤ → Text
  unfolding hex_text
  sign canon exp = hex_text (hmac s.secret (canon ++ (b'.' ∷ int_text exp)))

  -- `Mint`
  unfoldable pub mint : ℕ → Text → Text
  unfolding sign unix
  mint now canon =
      let exp = unix (add_duration now s.ttl) in int_text exp ++ (b'.' ∷ sign canon exp)

  unfoldable pub verify_signed : ℕ → Text → Text → Option ℤ → Option TokenError
  unfolding sign before_unix
  verify_signed now canon signature none = some malformed
  verify_signed now canon signature (some exp) =
      if not (text_eq signature (sign canon exp))
      then some mismatch
      else if not (before_unix now exp)
      then some expired
      else none

  unfoldable pub verify_parts : ℕ → Text → Option (Text × Text) → Option TokenError
  unfolding verify_signed parse_int
  verify_parts now canon none = some malformed
  verify_parts now canon (some (exp, signature)) =
      if is_empty exp || is_empty signature
      then some malformed
      else verify_signed now canon signature (parse_int exp)

  -- `Verify`
  unfoldable pub verify : ℕ → Text → Text → Option TokenError
  unfolding verify_parts cut
  verify now canon token = verify_parts now canon (cut token)
