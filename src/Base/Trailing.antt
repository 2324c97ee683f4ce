-- ===== src/Base/Trailing.antt =====
-- What trimming the end of a text leaves of it.
use Prim.Native.Nat.{ℕ, zero, suc}
use mathlib.Core.Path.{◌≡◌, refl, ◌∙◌}
use mathlib.Core.Logic.{inl, inr}
use mathlib.Core.Bool.{true, false}
use mathlib.Core.List.{[], ◌∷◌, ◌++◌, reverse, reverse-cons, reverse-append}
use native.Mathlib.Omega.{arith}
use pxe_beacon.Base.Tests.{leb, Bool-cases}
use pxe_beacon.Base.Texts.{
  Text, is_space, is_space_pair, is_space_triple, width_by, last_space_width, skip_spaces,
  trim_left, trim_space,
}
use pxe_beacon.Base.Trimming.{skip_none, skip_some}

-- There are `n` bytes.
abbrev HasBytes : ℕ → Text → Type 0
HasBytes zero s = Unit {0}
HasBytes (suc n) [] = ⊥
HasBytes (suc n) (b ∷ s) = HasBytes n s

-- A byte that is a graphic character of ASCII
module _ (b : ℕ) (low : leb 33 b ≡ true) (high : leb b 126 ≡ true) where
  graphic_no_space :
      (x y : ℕ)
      → (is_space b ≡ false) × (is_space_pair b x ≡ false) × (is_space_triple b y x ≡ false)
  unfolding is_space is_space_pair is_space_triple
  graphic_no_space x y = (ground (arith, low, high), ground (arith, high), ground (arith, high))

  last_space_width-HasBytes :
      (x : ℕ) (xs : Text) → HasBytes (last_space_width (x ∷ (xs ++ b ∷ []))) (x ∷ xs)
  unfolding last_space_width width_by
  last_space_width-HasBytes x [] = elim (Bool-cases (is_space x)) [
    | inl e ↦ rw e tt
    | inr e ↦ let (single, pair, triple) = graphic_no_space x x in rw (e, pair) tt
  ]
  last_space_width-HasBytes x (y ∷ []) = elim (Bool-cases (is_space x)) [
    | inl e ↦ rw e tt
    | inr e ↦ elim (Bool-cases (is_space_pair y x)) [
      | inl p ↦ rw (e, p) tt
      | inr p ↦ let (single, pair, triple) = graphic_no_space x y in rw (e, p, triple) tt
    ]
  ]
  last_space_width-HasBytes x (y ∷ z ∷ s) = elim (Bool-cases (is_space x)) [
    | inl e ↦ rw e tt
    | inr e ↦ elim (Bool-cases (is_space_pair y x)) [
      | inl p ↦ rw (e, p) tt
      | inr p ↦ elim (Bool-cases (is_space_triple z y x)) [
        | inl t ↦ rw (e, p, t) tt
        | inr t ↦ rw (e, p, t) tt
      ]
    ]
  ]

  abbrev IsKept : ℕ → Text → Type 0
  IsKept n xs = (ys : Text) × (skip_spaces last_space_width n (xs ++ b ∷ []) ≡ ys ++ b ∷ [])

  keeps_by_width :
      (x : ℕ) (xs : Text) (n : ℕ)
      → ((k : ℕ) → HasBytes k xs → IsKept k xs)
      → last_space_width (x ∷ (xs ++ b ∷ [])) ≡ n
      → HasBytes n (x ∷ xs)
      → IsKept 0 (x ∷ xs)
  keeps_by_width x xs zero rest e h = (x ∷ xs, skip_none last_space_width x (xs ++ b ∷ []) e)
  keeps_by_width x xs (suc n) rest e h =
      let (ys, same) = rest n h in (ys, skip_some last_space_width n x (xs ++ b ∷ []) e ∙ same)

  skip_keeps : (n : ℕ) (xs : Text) → HasBytes n xs → IsKept n xs
  unfolding skip_spaces
  skip_keeps zero [] h = (
    [],
    skip_none last_space_width b [] (
        unfold last_space_width width_by in
        let (single, pair, triple) = graphic_no_space b b in rw single refl),
  )
  skip_keeps (suc n) [] h = absurd h
  skip_keeps (suc n) (x ∷ xs) h = skip_keeps n xs h
  skip_keeps zero (x ∷ xs) h =
      keeps_by_width x xs (last_space_width (x ∷ (xs ++ b ∷ []))) (λ k w. skip_keeps k xs w) refl
        (last_space_width-HasBytes x xs)

  -- Trimming leaves this byte where it comes first behind white space.
  pub trim_space-graphic : (s r : Text) → trim_left s ≡ b ∷ r → (t : Text) × (trim_space s ≡ b ∷ t)
  unfolding trim_space
  trim_space-graphic s r h =
      let (ys, e) = skip_keeps 0 (reverse r) tt in
      (reverse ys, rw (h, reverse-cons, e, reverse-append))
