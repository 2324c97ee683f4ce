-- ===== src/Boot/Resolve.antt =====
-- The labels that the script of internal/boot/dispatch.go has, and those that it goes to.
use pxe_beacon.Base.{◌≡◌, refl, ap, List, [], ◌∷◌, ◌++◌, All, Text, bytes}
use mathlib.Core.List.{Memᴰ}
use pxe_beacon.Fleet.{Fleet}
use pxe_beacon.Boot.Script.{Line, say, print, label, jump, on_match, item, labels, targets}

pub labels-append : (xs ys : List Line) → labels (xs ++ ys) ≡ labels xs ++ labels ys
unfolding labels
labels-append [] ys = refl
labels-append (say t ∷ xs) ys = labels-append xs ys
labels-append (print b t a ∷ xs) ys = labels-append xs ys
labels-append (label l ∷ xs) ys = ap (λ (r : List Text). l ∷ r) (labels-append xs ys)
labels-append (jump b l ∷ xs) ys = labels-append xs ys
labels-append (on_match k v l ∷ xs) ys = labels-append xs ys
labels-append (item b l a ∷ xs) ys = labels-append xs ys

-- All labels that the lines can go to are in `L`.
abbrev pub Resolves : List Text → List Line → Type 0
Resolves L ls = All (λ t. Memᴰ t L) (targets ls)

abbrev Has : List Text → List Line → Type 0
Has L ls = All (λ t. Memᴰ t L) (labels ls)

module _ (L : List Text) where
  -- The labels that every script has.
  abbrev Shared : Type 0
  Shared = Memᴰ (bytes "target_default") L × Memᴰ (bytes "menu_netbootxyz") L
