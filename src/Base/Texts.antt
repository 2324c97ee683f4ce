-- ===== src/Base/Texts.antt =====
-- Go strings and byte slices as lists of bytes.
use Prim.Native.Nat.{ℕ, zero, suc, ◌+◌, ◌/◌, ◌%◌}
use Prim.Native.Char.{code}
use Prim.Native.String.{String}
use mathlib.Core.Path.{◌≡◌, refl}
use mathlib.Core.Logic.{◌↔◌}
use mathlib.Core.Bool.{Bool, true, false, ◌&&◌, ◌||◌}
use mathlib.Core.List.{List, [], ◌∷◌, ◌++◌, reverse}
use native.Mathlib.Omega.{arith}
use pxe_beacon.Base.Tests.{ltb, leb, ◌==◌, if◌then◌else◌}

abbrev pub Text : Type 0
Text = List ℕ

-- The bytes of an ASCII literal.
abbrev pub bytes : String → Text
bytes String.[] = []
bytes (String.◌∷◌ c s) = code c ∷ bytes s

-- The UTF-8 encoding of a code point below 65536, and of a literal.
unfoldable pub utf8 : ℕ → Text
utf8 c =
    if ltb c 128
    then c ∷ []
    else if ltb c 2048
    then (192 + c / 64) ∷ (128 + c % 64) ∷ []
    else (224 + c / 4096) ∷ (128 + c / 64 % 64) ∷ (128 + c % 64) ∷ []

unfoldable pub text : String → Text
unfolding utf8
text String.[] = []
text (String.◌∷◌ c s) = utf8 (code c) ++ text s

unfoldable pub text_eq : Text → Text → Bool
text_eq [] [] = true
text_eq [] (b ∷ t) = false
text_eq (a ∷ s) [] = false
text_eq (a ∷ s) (b ∷ t) = a == b && text_eq s t

pub text_eq_iff : (s t : Text) → (text_eq s t ≡ true) ↔ (s ≡ t)
unfolding text_eq
text_eq_iff [] [] = ((λ _. refl), (λ _. refl))
text_eq_iff [] (b ∷ t) = ground arith
text_eq_iff (a ∷ s) [] = ground arith
text_eq_iff (a ∷ s) (b ∷ t) = ground (arith, text_eq_iff s t)

pub text_eq_refl : (s : Text) → text_eq s s ≡ true
text_eq_refl s = (text_eq_iff s s).1 refl

abbrev pub is_empty : Text → Bool
is_empty [] = true
is_empty (b ∷ s) = false

-- `strings.HasPrefix(s, prefix)`
unfoldable pub has_prefix : Text → Text → Bool
has_prefix s [] = true
has_prefix [] (b ∷ p) = false
has_prefix (a ∷ s) (b ∷ p) = a == b && has_prefix s p

-- `strings.ReplaceAll(s, old, new)` for one-byte `old` and `new`
unfoldable pub replace_byte : ℕ → ℕ → Text → Text
replace_byte old new [] = []
replace_byte old new (b ∷ s) = (if b == old then new else b) ∷ replace_byte old new s

-- `strings.ReplaceAll(s, old, "")` for a one-byte `old`
unfoldable pub remove_byte : ℕ → Text → Text
remove_byte old [] = []
remove_byte old (b ∷ s) = let rest = remove_byte old s in if b == old then rest else b ∷ rest

-- `a < b` on strings: the order of their bytes
unfoldable pub text_lt : Text → Text → Bool
text_lt s [] = false
text_lt [] (b ∷ t) = true
text_lt (a ∷ s) (b ∷ t) = if a == b then text_lt s t else ltb a b

-- `s[i]`; a test of the length stands before each use, and the 0 out of range is not reached.
unfoldable pub byte_at : Text → ℕ → ℕ
byte_at [] i = 0
byte_at (b ∷ s) zero = b
byte_at (b ∷ s) (suc i) = byte_at s i

unfoldable pub lower_byte : ℕ → ℕ
lower_byte b = if leb b'A' b && leb b b'Z' then b + 32 else b

-- `strings.ToLower` on ASCII text
unfoldable pub to_lower : Text → Text
unfolding lower_byte
to_lower [] = []
to_lower (b ∷ s) = lower_byte b ∷ to_lower s

-- `strings.TrimPrefix` with a prefix that is known to be there, and `s[len(prefix):]`
unfoldable pub strip_prefix : Text → Text → Text
strip_prefix s [] = s
strip_prefix [] (b ∷ p) = []
strip_prefix (a ∷ s) (b ∷ p) = strip_prefix s p

unfoldable pub push_first : ℕ → List Text → List Text
push_first b [] = (b ∷ []) ∷ []
push_first b (w ∷ ws) = (b ∷ w) ∷ ws

-- `strings.Split(s, sep)` for a one-byte `sep`
unfoldable pub split_on : ℕ → Text → List Text
split_on sep [] = [] ∷ []
split_on sep (b ∷ s) =
    let rest = split_on sep s in if b == sep then [] ∷ rest else push_first b rest

-- `strings.Join(ws, sep)` for a one-byte `sep`
unfoldable pub join_with : ℕ → List Text → Text
join_with sep [] = []
join_with sep (w ∷ []) = w
join_with sep (w ∷ v ∷ ws) = w ++ (sep ∷ join_with sep (v ∷ ws))

-- The white-space characters of Unicode, as UTF-8 has them: those of ASCII in one byte,
unfoldable pub is_space : ℕ → Bool
is_space b = b == b' ' || (leb 9 b && leb b 13)

-- U+0085 and U+00A0 in two,
unfoldable pub is_space_pair : ℕ → ℕ → Bool
is_space_pair a b = a == 194 && (b == 133 || b == 160)

-- and U+1680, U+2000 to U+200A, U+2028, U+2029, U+202F, U+205F and U+3000 in three.
unfoldable pub is_space_triple : ℕ → ℕ → ℕ → Bool
is_space_triple a b c =
    (a == 225 && (b == 154 && c == 128))
    || (a == 226 && (b == 128 && ((leb 128 c && leb c 138) || c == 168 || c == 169 || c == 175)))
    || (a == 226 && (b == 129 && c == 159))
    || (a == 227 && (b == 128 && c == 128))

-- One white-space character
unfoldable pub is_space_char : Text → Bool
is_space_char [] = false
is_space_char (a ∷ []) = is_space a
is_space_char (a ∷ b ∷ []) = is_space_pair a b
is_space_char (a ∷ b ∷ c ∷ []) = is_space_triple a b c
is_space_char (a ∷ b ∷ c ∷ d ∷ s) = false

-- How many bytes the white-space character has that a text starts with; 0 when there is none.
module _ (pair : ℕ → ℕ → Bool) (triple : ℕ → ℕ → ℕ → Bool) where
  unfoldable pub width_by : Text → ℕ
  width_by [] = 0
  width_by (a ∷ []) = if is_space a then 1 else 0
  width_by (a ∷ b ∷ []) = if is_space a then 1 else if pair a b then 2 else 0
  width_by (a ∷ b ∷ c ∷ s) =
      if is_space a then 1 else if pair a b then 2 else if triple a b c then 3 else 0

unfoldable pub space_width : Text → ℕ
unfolding width_by is_space_pair is_space_triple
space_width s = width_by is_space_pair is_space_triple s

-- The same for the end of a text, whose bytes are given from the last to the first.
unfoldable pub last_space_width : Text → ℕ
unfolding width_by is_space_pair is_space_triple
last_space_width s = width_by (λ a b. is_space_pair b a) (λ a b c. is_space_triple c b a) s

-- What stands behind `n` bytes and the white space after them.
unfoldable pub skip_spaces : (Text → ℕ) → ℕ → Text → Text
skip_spaces width n [] = []
skip_spaces width (suc n) (b ∷ s) = skip_spaces width n s
skip_spaces width zero (b ∷ s) = elim (width (b ∷ s)) [
  | zero ↦ b ∷ s
  | suc n ↦ skip_spaces width n s
]

unfoldable pub trim_left : Text → Text
unfolding skip_spaces space_width
trim_left s = skip_spaces space_width 0 s

-- `strings.TrimSpace` on a text in UTF-8
unfoldable pub trim_space : Text → Text
unfolding trim_left skip_spaces last_space_width
trim_space s = reverse (skip_spaces last_space_width 0 (reverse (trim_left s)))

unfoldable pub trim_code : Unit {0}
unfolding trim_space trim_left skip_spaces space_width last_space_width width_by is_space_pair
    is_space_triple is_space
trim_code = tt
