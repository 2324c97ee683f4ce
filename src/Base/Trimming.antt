-- ===== src/Base/Trimming.antt =====
-- What trimming the white space of a text takes away and what it leaves.
use Prim.Native.Nat.{ℕ, zero, suc}
use mathlib.Core.Path.{◌≡◌, refl, sym, ap, ◌∙◌}
use mathlib.Core.Logic.{inl, inr}
use mathlib.Core.Bool.{true, false}
use mathlib.Core.List.{List, [], ◌∷◌, ◌++◌, reverse, reverse-append, reverse-reverse, append_assoc}
use native.Mathlib.Omega.{arith}
use pxe_beacon.Base.Tests.{Bool-cases}
use pxe_beacon.Base.Texts.{
  Text, is_space, is_space_pair, is_space_triple, is_space_char, width_by, space_width,
  last_space_width, skip_spaces, trim_left, trim_space,
}
use pxe_beacon.Base.Lists.{All}

-- `cs` one behind the other
unfoldable pub joined : List Text → Text
joined [] = []
joined (c ∷ cs) = c ++ joined cs

-- White-space characters
abbrev pub AreSpaces : List Text → Type 0
AreSpaces = All (λ c. is_space_char c ≡ true)

module _ (width : Text → ℕ) where
  pub skip_none : (b : ℕ) (s : Text) → width (b ∷ s) ≡ 0 → skip_spaces width 0 (b ∷ s) ≡ b ∷ s
  unfolding skip_spaces
  skip_none b s h = rw (skip_spaces, h) refl

  pub skip_some :
      (n b : ℕ) (s : Text)
      → width (b ∷ s) ≡ suc n
      → skip_spaces width 0 (b ∷ s) ≡ skip_spaces width n s
  unfolding skip_spaces
  skip_some n b s h = rw (skip_spaces, h) refl

  -- What is left of a text is an end of it.
  abbrev HasRest : ℕ → Text → Type 0
  HasRest n s = (t : Text) × (s ≡ t ++ skip_spaces width n s)

  rest_by_width :
      (b : ℕ) (s : Text) (n : ℕ) → ((k : ℕ) → HasRest k s) → width (b ∷ s) ≡ n → HasRest 0 (b ∷ s)
  rest_by_width b s zero rest e = ([], sym (skip_none b s e))
  rest_by_width b s (suc n) rest e =
      let (t, whole) = rest n in
      let same = skip_some n b s e in
      (b ∷ t, ap (λ (r : Text). b ∷ r) (whole ∙ ap (λ (r : Text). t ++ r) (sym same)))

  skip_rest : (n : ℕ) (s : Text) → HasRest n s
  unfolding skip_spaces
  skip_rest n [] = ([], refl)
  skip_rest (suc n) (b ∷ s) = let (t, e) = skip_rest n s in (b ∷ t, ap (λ (r : Text). b ∷ r) e)
  skip_rest zero (b ∷ s) = rest_by_width b s (width (b ∷ s)) (λ k. skip_rest k s) refl

-- A text is the white space in front of it and what trimming leaves.
abbrev HasSplit : Text → Type 0
HasSplit s = (cs : List Text) × AreSpaces cs × (s ≡ joined cs ++ trim_left s)

width_char : (a : ℕ) (s : Text) → is_space a ≡ true → space_width (a ∷ s) ≡ 1
unfolding space_width width_by
width_char a [] h = rw h refl
width_char a (b ∷ []) h = rw h refl
width_char a (b ∷ c ∷ s) h = rw h refl

pair_apart : (a b : ℕ) → is_space_pair a b ≡ true → is_space a ≡ false
unfolding is_space_pair is_space
pair_apart a b h = ground arith

triple_apart :
    (a b c : ℕ) → is_space_triple a b c ≡ true → (is_space a ≡ false) × (is_space_pair a b ≡ false)
unfolding is_space_triple is_space_pair is_space
triple_apart a b c h = (ground arith, ground arith)

width_pair : (a b : ℕ) (s : Text) → is_space_pair a b ≡ true → space_width (a ∷ b ∷ s) ≡ 2
unfolding space_width width_by
width_pair a b [] h = rw (pair_apart a b h, h) refl
width_pair a b (c ∷ s) h = rw (pair_apart a b h, h) refl

width_triple :
    (a b c : ℕ) (s : Text) → is_space_triple a b c ≡ true → space_width (a ∷ b ∷ c ∷ s) ≡ 3
unfolding space_width width_by
width_triple a b c s h = let (single, pair) = triple_apart a b c h in rw (single, pair, h) refl

-- Trimming goes on behind a white-space character.
trim_left-char : (c s : Text) → is_space_char c ≡ true → trim_left (c ++ s) ≡ trim_left s
unfolding trim_left is_space_char skip_spaces
trim_left-char [] s h = refl
trim_left-char (a ∷ []) s h = skip_some space_width 0 a s (width_char a s h)
trim_left-char (a ∷ b ∷ []) s h = skip_some space_width 1 a (b ∷ s) (width_pair a b s h)
trim_left-char (a ∷ b ∷ c ∷ []) s h = skip_some space_width 2 a (b ∷ c ∷ s) (width_triple a b c s h)
trim_left-char (a ∷ b ∷ c ∷ d ∷ t) s h = absurd (ground arith)

pub trim_left-joined :
    (cs : List Text) (s : Text) → AreSpaces cs → trim_left (joined cs ++ s) ≡ trim_left s
unfolding joined
trim_left-joined [] s h = refl
trim_left-joined (c ∷ cs) s (space, all) =
    ap trim_left (append_assoc c (joined cs) s)
    ∙ trim_left-char c (joined cs ++ s) space
    ∙ trim_left-joined cs s all

split_char : (c s : Text) → is_space_char c ≡ true → HasSplit s → HasSplit (c ++ s)
unfolding joined
split_char c s h (cs, all, e) = (
  c ∷ cs,
  (h, all),
  ap (λ (r : Text). c ++ r) (e ∙ ap (λ (r : Text). joined cs ++ r) (sym (trim_left-char c s h)))
      ∙ sym (append_assoc c (joined cs) _),
)

split_none : (a : ℕ) (s : Text) → space_width (a ∷ s) ≡ 0 → HasSplit (a ∷ s)
unfolding joined trim_left
split_none a s h = ([], tt, sym (skip_none space_width a s h))

split_single : (a : ℕ) (s : Text) → HasSplit s → is_space a ≡ true → HasSplit (a ∷ s)
unfolding is_space_char
split_single a s later h = split_char (a ∷ []) s h later

split_pair : (a b : ℕ) (s : Text) → HasSplit s → is_space_pair a b ≡ true → HasSplit (a ∷ b ∷ s)
unfolding is_space_char
split_pair a b s later h = split_char (a ∷ b ∷ []) s h later

split_triple :
    (a b c : ℕ) (s : Text) → HasSplit s → is_space_triple a b c ≡ true → HasSplit (a ∷ b ∷ c ∷ s)
unfolding is_space_char
split_triple a b c s later h = split_char (a ∷ b ∷ c ∷ []) s h later

pub trim_left-HasSplit : (s : Text) → HasSplit s
unfolding joined trim_left skip_spaces space_width width_by
trim_left-HasSplit [] = ([], tt, refl)
trim_left-HasSplit (a ∷ []) = elim (Bool-cases (is_space a)) [
  | inl e ↦ split_single a [] (trim_left-HasSplit []) e
  | inr e ↦ split_none a [] (rw e refl)
]
trim_left-HasSplit (a ∷ b ∷ []) = elim (Bool-cases (is_space a)) [
  | inl e ↦ split_single a (b ∷ []) (trim_left-HasSplit (b ∷ [])) e
  | inr n ↦ elim (Bool-cases (is_space_pair a b)) [
    | inl e ↦ split_pair a b [] (trim_left-HasSplit []) e
    | inr e ↦ split_none a (b ∷ []) (rw (n, e) refl)
  ]
]
trim_left-HasSplit (a ∷ b ∷ c ∷ s) = elim (Bool-cases (is_space a)) [
  | inl e ↦ split_single a (b ∷ c ∷ s) (trim_left-HasSplit (b ∷ c ∷ s)) e
  | inr n ↦ elim (Bool-cases (is_space_pair a b)) [
    | inl e ↦ split_pair a b (c ∷ s) (trim_left-HasSplit (c ∷ s)) e
    | inr k ↦ elim (Bool-cases (is_space_triple a b c)) [
      | inl e ↦ split_triple a b c s (trim_left-HasSplit s) e
      | inr e ↦ split_none a (b ∷ c ∷ s) (rw (n, k, e) refl)
    ]
  ]
]

-- What trimming leaves of a text stands at the start of what trimming its front leaves.
pub trim_space-start : (s : Text) → (t : Text) × (trim_left s ≡ trim_space s ++ t)
unfolding trim_space
trim_space-start s =
    let kept = skip_spaces last_space_width 0 (reverse (trim_left s)) in
    let (t, e) = skip_rest last_space_width 0 (reverse (trim_left s)) in
    (
      reverse t,
      sym (reverse-reverse (trim_left s)) ∙ ap (λ (r : Text). reverse r) e ∙ reverse-append t kept,
    )
