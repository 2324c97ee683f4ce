-- ===== src/Base/Splitting.antt =====
-- `strings.Split` on a text in two parts.
use Prim.Native.Nat.{ℕ}
use mathlib.Core.Path.{◌≡◌, refl, ap, ◌∙◌}
use mathlib.Core.Logic.{inl, inr}
use mathlib.Core.List.{List, [], ◌∷◌, ◌++◌}
use pxe_beacon.Base.Tests.{◌==◌, ==_iff, Bool-cases}
use pxe_beacon.Base.Texts.{Text, split_on, push_first}

pub split_on_cons : (sep : ℕ) (a : Text) → (w : Text) × (vs : List Text) × (split_on sep a ≡ w ∷ vs)
unfolding split_on push_first
split_on_cons sep [] = ([], [], refl)
split_on_cons sep (c ∷ a) = elim (Bool-cases (c == sep)) [
  | inl e ↦ ([], split_on sep a, rw e refl)
  | inr e ↦ let (w, vs, rest) = split_on_cons sep a in (c ∷ w, vs, rw (e, rest) refl)
]

push_first-append :
    (sep c : ℕ) (a : Text) (ws : List Text)
    → push_first c (split_on sep a ++ ws) ≡ push_first c (split_on sep a) ++ ws
unfolding push_first
push_first-append sep c a ws = let (w, vs, e) = split_on_cons sep a in rw e refl

pub split_on-append :
    (sep : ℕ) (a b : Text) → split_on sep (a ++ (sep ∷ b)) ≡ split_on sep a ++ split_on sep b
unfolding split_on
split_on-append sep [] b = rw ((==_iff sep sep).1 refl)
split_on-append sep (c ∷ a) b = elim (Bool-cases (c == sep)) [
  | inl e ↦ rw e (ap (λ (r : List Text). [] ∷ r) (split_on-append sep a b))
  | inr e ↦
      rw e
        (ap (push_first c) (split_on-append sep a b) ∙ push_first-append sep c a (split_on sep b))
]
