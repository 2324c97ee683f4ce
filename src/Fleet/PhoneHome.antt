-- ===== src/Fleet/PhoneHome.antt =====
-- DefinesPhoneHome of internal/fleet/fleet.go.
use pxe_beacon.Base.{
  ◌≡◌, ◌↔◌, refl, sym, ap, ◌∙◌, subst, ◌⊎◌, inl, inr, Bool, true, false, ◌||◌, List, [], ◌∷◌, ◌++◌,
  arith, if◌then◌else◌, Bool-cases, Text, bytes, has_prefix, strip_prefix, split_on, trim_space,
  trim_left, trim_code, joined, AreSpaces, trim_left-HasSplit, trim_left-joined, trim_space-start,
  trim_space-graphic,
}

abbrev pub phone_home : Text
phone_home = bytes "phone_home"

-- The test of one line.
unfoldable pub line_defines : Text → Bool
line_defines line =
    if has_prefix line phone_home
    then has_prefix (trim_space (strip_prefix line phone_home)) (b':' ∷ [])
    else false

unfoldable pub any_line : List Text → Bool
any_line [] = false
any_line (line ∷ lines) = line_defines line || any_line lines

unfoldable pub defines_phone_home : Text → Bool
unfolding any_line line_defines
defines_phone_home content = any_line (split_on 10 content)

has_prefix-strip : (s p : Text) → has_prefix s p ≡ true → s ≡ p ++ strip_prefix s p
unfolding has_prefix strip_prefix
has_prefix-strip s [] h = refl
has_prefix-strip [] (b ∷ p) h = cc
has_prefix-strip (a ∷ s) (b ∷ p) h = ground (arith, has_prefix-strip s p)

strip-append : (p t : Text) → strip_prefix (p ++ t) p ≡ t
unfolding strip_prefix
strip-append [] t = refl
strip-append (b ∷ p) t = strip-append p t

has_prefix-append : (p t : Text) → has_prefix (p ++ t) p ≡ true
unfolding has_prefix
has_prefix-append [] t = refl
has_prefix-append (b ∷ p) t = rw (has_prefix-append p t) (ground arith)

-- The key at the start of a line: "phone_home", any white-space characters, a colon.
abbrev pub IsPhoneHomeKey : Text → Type 0
IsPhoneHomeKey line =
    (cs : List Text) × (rest : Text) × AreSpaces cs
    × (line ≡ phone_home ++ (joined cs ++ (b':' ∷ rest)))

first_byte : (t : Text) → has_prefix t (b':' ∷ []) ≡ true → (rest : Text) × (t ≡ b':' ∷ rest)
unfolding has_prefix
first_byte [] h = cc
first_byte (b ∷ t) h = (t, ap (λ a. a ∷ t) (ground arith))

colon_first : (t : Text) → has_prefix (b':' ∷ t) (b':' ∷ []) ≡ true
unfolding has_prefix
colon_first [] = refl
colon_first (a ∷ t) = refl

colon_stays : (t : Text) → trim_left (b':' ∷ t) ≡ b':' ∷ t
unfolding trim_code
colon_stays [] = refl
colon_stays (b ∷ []) = refl
colon_stays (b ∷ c ∷ t) = refl

-- What stands behind the spaces of a text whose trimmed form starts with a colon.
colon_behind_spaces :
    (s : Text)
    → has_prefix (trim_space s) (b':' ∷ []) ≡ true
    → (cs : List Text) × (rest : Text) × AreSpaces cs × (s ≡ joined cs ++ (b':' ∷ rest))
colon_behind_spaces s h =
    let (t, colon) = first_byte (trim_space s) h in
    let (after, start) = trim_space-start s in
    let (cs, all, whole) = trim_left-HasSplit s in
    (
      cs,
      t ++ after,
      all,
      whole ∙ ap (λ (r : Text). joined cs ++ r) (start ∙ ap (λ (r : Text). r ++ after) colon),
    )

line_defines_sound : (line : Text) → line_defines line ≡ true → IsPhoneHomeKey line
unfolding line_defines
line_defines_sound line h =
    let key : has_prefix line phone_home ≡ true = ground arith in
    let colon : has_prefix (trim_space (strip_prefix line phone_home)) (b':' ∷ []) ≡ true =
      ground arith in
    let (cs, rest, all, e) = colon_behind_spaces (strip_prefix line phone_home) colon in
    (cs, rest, all, has_prefix-strip line phone_home key ∙ ap (λ t. phone_home ++ t) e)

line_defines_of_parts :
    (line rest : Text)
    → has_prefix line phone_home ≡ true
    → strip_prefix line phone_home ≡ rest
    → has_prefix (trim_space rest) (b':' ∷ []) ≡ true
    → line_defines line ≡ true
unfolding line_defines
line_defines_of_parts line rest key strip colon = rw (key, strip) colon

line_defines_complete : (line : Text) → IsPhoneHomeKey line → line_defines line ≡ true
line_defines_complete line (cs, rest, all, e) =
    let behind = joined cs ++ (b':' ∷ rest) in
    let (t, front) =
      trim_space-graphic b':' refl refl behind rest
        (trim_left-joined cs (b':' ∷ rest) all ∙ colon_stays rest) in
    line_defines_of_parts line behind
      (subst (λ l. has_prefix l phone_home ≡ true) (sym e) (has_prefix-append phone_home behind))
      (subst (λ l. strip_prefix l phone_home ≡ behind) (sym e) (strip-append phone_home behind))
      (subst (λ l. has_prefix l (b':' ∷ []) ≡ true) (sym front) (colon_first t))

-- Some line of the list starts with the key.
abbrev pub HasPhoneHomeKey : List Text → Type 0
HasPhoneHomeKey [] = ⊥
HasPhoneHomeKey (line ∷ lines) = IsPhoneHomeKey line ⊎ HasPhoneHomeKey lines

any_line_sound : (lines : List Text) → any_line lines ≡ true → HasPhoneHomeKey lines
unfolding any_line
any_line_sound [] h = cc
any_line_sound (line ∷ lines) h = elim (Bool-cases (line_defines line)) [
  | inl e ↦ inl (line_defines_sound line e)
  | inr e ↦ inr (any_line_sound lines (ground arith))
]

any_line_complete : (lines : List Text) → HasPhoneHomeKey lines → any_line lines ≡ true
unfolding any_line
any_line_complete [] h = elim h [ ]
any_line_complete (line ∷ lines) (inl here) = rw (line_defines_complete line here)
any_line_complete (line ∷ lines) (inr there) = rw (any_line_complete lines there) (ground arith)

-- The scan says yes exactly when some line starts in its first column with "phone_home", any
-- white-space characters of Unicode and a colon: indented and commented keys do not count, nor
-- longer words.
pub defines_phone_home_iff :
    (content : Text) → (defines_phone_home content ≡ true) ↔ HasPhoneHomeKey (split_on 10 content)
unfolding defines_phone_home
defines_phone_home_iff content =
    (any_line_sound (split_on 10 content), any_line_complete (split_on 10 content))
