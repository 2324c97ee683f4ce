-- ===== src/Base/Decimal.antt =====
-- Decimal numerals, for `%d` and `strconv.FormatInt` on a number that is not negative.
use Prim.Native.Nat.{ℕ, zero, suc, ◌+◌, ◌-◌, ◌*◌, ◌^◌, ◌<◌, ◌/◌, ◌%◌}
use mathlib.Core.Path.{◌≡◌, refl, ap, ◌∙◌}
use mathlib.Core.Logic.{inl, inr}
use native.Mathlib.Omega.{arith}
use mathlib.Core.List.{[], ◌∷◌}
use mathlib.Core.Bool.{Bool, true, false, ◌&&◌}
use mathlib.Core.Option.{Option, none, some}
use pxe_beacon.Base.Tests.{ℤ, pos, negsuc, ltb, leb, ◌==◌, ltb→ge, Bool-cases, if◌then◌else◌}
use pxe_beacon.Base.Texts.{Text, is_empty}

-- `acc` behind the digits of `n`; each round takes one digit.
unfoldable pub digits_onto : ℕ → ℕ → Text → Text
digits_onto zero n acc = acc
digits_onto (suc rounds) n acc = elim (ltb n 10) [
  | true ↦ (48 + n) ∷ acc
  | false ↦ digits_onto rounds (n / 10) ((48 + n % 10) ∷ acc)
]

unfoldable pub decimal : ℕ → Text
unfolding digits_onto
decimal n = digits_onto (suc n) n []

-- `%d` of an int
unfoldable pub int_text : ℤ → Text
unfolding decimal
int_text (pos n) = decimal n
int_text (negsuc n) = b'-' ∷ decimal (suc n)

-- The number that the digits say, read behind a number `v` that came before them.
unfoldable pub value_onto : ℕ → Text → ℕ
value_onto v [] = v
value_onto v (d ∷ ds) = value_onto (v * 10 + (d - 48)) ds

value_onto-digits_onto :
    (rounds n : ℕ) (acc : Text)
    → n < rounds
    → value_onto 0 (digits_onto rounds n acc) ≡ value_onto n acc
unfolding digits_onto value_onto
value_onto-digits_onto zero n acc h = absurd (omega (arith, h))
value_onto-digits_onto (suc rounds) n acc h = elim (Bool-cases (ltb n 10)) [
  | inl e ↦ rw (value_onto, digits_onto, e) (ap (λ v. value_onto v acc) (omega arith))
  | inr e ↦
      let shorter : n / 10 < rounds = omega (arith, h, ltb→ge n 10 e) in
      rw (value_onto, digits_onto, e)
        (value_onto-digits_onto rounds (n / 10) ((48 + n % 10) ∷ acc) shorter
          ∙ ap (λ v. value_onto v acc) (omega arith))
]

-- The rounds are enough: the digits of a number say that number.
value_onto-decimal : (n : ℕ) → value_onto 0 (decimal n) ≡ n
unfolding decimal value_onto
value_onto-decimal n = value_onto-digits_onto (suc n) n [] (omega arith)

unfoldable pub are_digits : Text → Bool
are_digits [] = true
are_digits (d ∷ ds) = leb b'0' d && leb d b'9' && are_digits ds

-- A magnitude with its sign, within 64 bits.
unfoldable pub int64_of : Bool → ℕ → Option ℤ
int64_of negative n =
    if negative
    then (if ltb (2 ^ 63) n then none else some (negated n))
    else (if ltb n (2 ^ 63) then some (pos n) else none)
  where
    negated : ℕ → ℤ
    negated zero = pos 0
    negated (suc k) = negsuc k

unfoldable pub parse_digits : Bool → Text → Option ℤ
unfolding int64_of value_onto are_digits
parse_digits negative [] = none
parse_digits negative (d ∷ ds) =
    if are_digits (d ∷ ds) then int64_of negative (value_onto 0 (d ∷ ds)) else none

-- `strconv.ParseInt(s, 10, 64)`, and `strconv.Atoi` on a system of 64 bits
unfoldable pub parse_int : Text → Option ℤ
unfolding parse_digits
parse_int [] = none
parse_int (c ∷ s) =
    if c == b'-'
    then parse_digits true s
    else if c == b'+'
    then parse_digits false s
    else parse_digits false (c ∷ s)

are_digits-digits_onto :
    (rounds n : ℕ) (acc : Text)
    → are_digits acc ≡ true
    → are_digits (digits_onto rounds n acc) ≡ true
unfolding digits_onto are_digits
are_digits-digits_onto zero n acc h = h
are_digits-digits_onto (suc rounds) n acc h = elim (Bool-cases (ltb n 10)) [
  | inl e ↦ rw (digits_onto, e) (ground arith)
  | inr e ↦
      rw (digits_onto, e)
        (are_digits-digits_onto rounds (n / 10) ((48 + n % 10) ∷ acc) (ground arith))
]

-- Text that starts with a digit is not signed.
parse_int_unsigned :
    (s : Text) (n : ℕ)
    → are_digits s ≡ true
    → is_empty s ≡ false
    → value_onto 0 s ≡ n
    → n < 2 ^ 63
    → parse_int s ≡ some (pos n)
unfolding parse_int parse_digits int64_of are_digits
parse_int_unsigned [] n good nonempty v h = absurd (ground arith)
parse_int_unsigned (c ∷ s) n good nonempty v h = ground arith

is_empty-digits_onto :
    (rounds n : ℕ) (acc : Text) → is_empty acc ≡ false → is_empty (digits_onto rounds n acc) ≡ false
unfolding digits_onto
is_empty-digits_onto zero n acc h = h
is_empty-digits_onto (suc rounds) n acc h = elim (Bool-cases (ltb n 10)) [
  | inl e ↦ rw (digits_onto, e) refl
  | inr e ↦ rw (digits_onto, e) (is_empty-digits_onto rounds (n / 10) ((48 + n % 10) ∷ acc) refl)
]

pub is_empty-decimal : (n : ℕ) → is_empty (decimal n) ≡ false
unfolding decimal digits_onto
is_empty-decimal n = elim (Bool-cases (ltb n 10)) [
  | inl e ↦ rw (decimal, digits_onto, e) refl
  | inr e ↦ rw (decimal, digits_onto, e) (is_empty-digits_onto n (n / 10) ((48 + n % 10) ∷ []) refl)
]

-- The numeral consists of digits.
pub are_digits-decimal : (n : ℕ) → are_digits (decimal n) ≡ true
unfolding decimal
are_digits-decimal n = are_digits-digits_onto (suc n) n [] (unfold are_digits in refl)

-- A printed number is read back.
pub parse_int-decimal : (n : ℕ) → n < 2 ^ 63 → parse_int (decimal n) ≡ some (pos n)
parse_int-decimal n h =
    parse_int_unsigned (decimal n) n (are_digits-decimal n) (is_empty-decimal n)
      (value_onto-decimal n) h
