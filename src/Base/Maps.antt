-- ===== src/Base/Maps.antt =====
-- Go maps with string keys, as association lists; the order of the list is the order in which
-- `range` happens to visit the entries.
use Prim.Native.Nat.{suc, ◌≤◌}
use mathlib.Core.Path.{◌≡◌, refl, ap, subst}
use mathlib.Core.Logic.{inl, inr}
use mathlib.Core.Bool.{Bool, true}
use mathlib.Core.Option.{Option, none, some}
use mathlib.Core.List.{List, [], ◌∷◌}
use native.Mathlib.Omega.{arith}
use pxe_beacon.Base.Tests.{if◌then◌else◌, is_some, Bool-cases}
use pxe_beacon.Base.Lists.{length}
use pxe_beacon.Base.Texts.{Text, text_eq, text_eq_iff}

abbrev pub Map {ℓ} : Type ℓ → Type ℓ
Map V = List (Text × V)

module _ {ℓ} {V : Type ℓ} where
  -- `v, ok := m[k]`
  unfoldable pub lookup : Text → Map V → Option V
  lookup k [] = none
  lookup k ((j, v) ∷ m) = if text_eq j k then some v else lookup k m

  -- `m[k] = v`
  unfoldable pub insert : Text → V → Map V → Map V
  insert k v [] = (k, v) ∷ []
  insert k v ((j, w) ∷ m) = if text_eq j k then (k, v) ∷ m else (j, w) ∷ insert k v m

  -- `delete(m, k)`
  unfoldable pub delete : Text → Map V → Map V
  delete k [] = []
  delete k ((j, v) ∷ m) = let rest = delete k m in if text_eq j k then rest else (j, v) ∷ rest

  -- the loop that deletes every key that `known` rejects
  unfoldable pub retain : (Text → Bool) → Map V → Map V
  retain known [] = []
  retain known ((j, v) ∷ m) = let rest = retain known m in if known j then (j, v) ∷ rest else rest

  pub lookup-insert :
      (k j : Text) (v : V) (m : Map V)
      → lookup j (insert k v m) ≡ (if text_eq k j then some v else lookup j m)
  unfolding lookup insert
  lookup-insert k j v [] = refl
  lookup-insert k j v ((i, w) ∷ m) =
      ground (arith, text_eq_iff k j, text_eq_iff i k, text_eq_iff i j, lookup-insert k j v m)

  pub lookup-delete :
      (k j : Text) (m : Map V) → lookup j (delete k m) ≡ (if text_eq k j then none else lookup j m)
  unfolding lookup delete
  lookup-delete k j [] = ground arith
  lookup-delete k j ((i, w) ∷ m) =
      ground (arith, text_eq_iff k j, text_eq_iff i k, text_eq_iff i j, lookup-delete k j m)

  pub lookup-retain :
      (known : Text → Bool) (j : Text) (m : Map V)
      → lookup j (retain known m) ≡ (if known j then lookup j m else none)
  unfolding lookup retain
  lookup-retain known j [] = ground arith
  lookup-retain known j ((i, w) ∷ m) = elim (Bool-cases (text_eq i j)) [
    | inl e ↦
        let same = (text_eq_iff i j).0 e in
        ground (arith, same, ap known same, lookup-retain known j m)
    | inr e ↦ ground (arith, lookup-retain known j m)
  ]

  -- Keys are distinct, as in a Go map.
  abbrev pub IsUnique : Map V → Type ℓ
  IsUnique [] = Unit
  IsUnique ((k, v) ∷ m) = (lookup k m ≡ none) × IsUnique m

  pub insert-IsUnique : (k : Text) (v : V) (m : Map V) → IsUnique m → IsUnique (insert k v m)
  unfolding insert lookup
  insert-IsUnique k v [] u = (refl, tt)
  insert-IsUnique k v ((i, w) ∷ m) (fresh, u) = elim (Bool-cases (text_eq i k)) [
    | inl e ↦
        let same = (text_eq_iff i k).0 e in
        rw e (ground (arith, same, ap (λ t. lookup t m) same), u)
    | inr e ↦ rw e (
      ground (arith, lookup-insert k i v m, text_eq_iff i k, text_eq_iff k i),
      insert-IsUnique k v m u,
    )
  ]

  pub delete-IsUnique : (k : Text) (m : Map V) → IsUnique m → IsUnique (delete k m)
  unfolding delete
  delete-IsUnique k [] u = tt
  delete-IsUnique k ((i, w) ∷ m) (fresh, u) = elim (Bool-cases (text_eq i k)) [
    | inl e ↦ rw e (delete-IsUnique k m u)
    | inr e ↦ rw e (ground (arith, lookup-delete k i m), delete-IsUnique k m u)
  ]

  pub retain-IsUnique : (known : Text → Bool) (m : Map V) → IsUnique m → IsUnique (retain known m)
  unfolding retain
  retain-IsUnique known [] u = tt
  retain-IsUnique known ((i, w) ∷ m) (fresh, u) = elim (Bool-cases (known i)) [
    | inl e ↦ rw e (ground (arith, lookup-retain known i m), retain-IsUnique known m u)
    | inr e ↦ rw e (retain-IsUnique known m u)
  ]

  pub length-insert :
      (k : Text) (v : V) (m : Map V)
      → length (insert k v m) ≡ (if is_some (lookup k m) then length m else suc (length m))
  unfolding insert lookup
  length-insert k v [] = refl
  length-insert k v ((i, w) ∷ m) = ground (arith, length-insert k v m)

  pub length-delete-le : (k : Text) (m : Map V) → length (delete k m) ≤ length m
  unfolding delete
  length-delete-le k [] = omega arith
  length-delete-le k ((i, w) ∷ m) = ground (arith, length-delete-le k m)

  pub length-delete-lt :
      (k : Text) (m : Map V) → is_some (lookup k m) ≡ true → suc (length (delete k m)) ≤ length m
  unfolding delete lookup
  length-delete-lt k [] h = absurd (ground arith)
  length-delete-lt k ((i, w) ∷ m) h = ground (arith, length-delete-le k m, length-delete-lt k m)

  -- Deleting a key that is not there changes nothing.
  pub delete_absent : (k : Text) (m : Map V) → lookup k m ≡ none → delete k m ≡ m
  unfolding delete lookup
  delete_absent k [] h = refl
  delete_absent k ((i, w) ∷ m) h = ground (arith, delete_absent k m)

  -- Deleting a key that was just inserted gives the map back.
  pub delete-insert :
      (k : Text) (v : V) (m : Map V) → lookup k m ≡ none → delete k (insert k v m) ≡ m
  unfolding delete insert lookup
  delete-insert k v [] h = ground (arith, text_eq_iff k k)
  delete-insert k v ((i, w) ∷ m) h = ground (arith, delete-insert k v m)

  -- Writing back the value that a key had gives the map back.
  pub insert-insert_back :
      (k : Text) (v w : V) (m : Map V)
      → IsUnique m
      → lookup k m ≡ some w
      → insert k w (insert k v m) ≡ m
  unfolding insert lookup
  insert-insert_back k v w [] u h = cc
  insert-insert_back k v w ((i, x) ∷ m) (fresh, u) h =
      ground (arith, text_eq_iff i k, text_eq_iff k k, insert-insert_back k v w m u)

-- A predicate on all keys.
abbrev pub AllKeys {ℓ κ} : {V : Type ℓ} → (Text → Type κ) → Map V → Type κ
AllKeys P [] = Unit
AllKeys P ((k, v) ∷ m) = P k × AllKeys P m

module _ {ℓ κ} {V : Type ℓ} (P : Text → Type κ) where
  pub insert-AllKeys : (k : Text) (v : V) (m : Map V) → P k → AllKeys P m → AllKeys P (insert k v m)
  unfolding insert
  insert-AllKeys k v [] p h = (p, tt)
  insert-AllKeys k v ((i, w) ∷ m) p (q, h) = elim (Bool-cases (text_eq i k)) [
    | inl e ↦ rw e (p, h)
    | inr e ↦ rw e (q, insert-AllKeys k v m p h)
  ]

  pub delete-AllKeys : (k : Text) (m : Map V) → AllKeys P m → AllKeys P (delete k m)
  unfolding delete
  delete-AllKeys k [] h = tt
  delete-AllKeys k ((i, w) ∷ m) (q, h) = elim (Bool-cases (text_eq i k)) [
    | inl e ↦ rw e (delete-AllKeys k m h)
    | inr e ↦ rw e (q, delete-AllKeys k m h)
  ]

  pub retain-AllKeys : (known : Text → Bool) (m : Map V) → AllKeys P m → AllKeys P (retain known m)
  unfolding retain
  retain-AllKeys known [] h = tt
  retain-AllKeys known ((i, w) ∷ m) (q, h) = elim (Bool-cases (known i)) [
    | inl e ↦ rw e (q, retain-AllKeys known m h)
    | inr e ↦ rw e (retain-AllKeys known m h)
  ]

module _ {ℓ κ} {V : Type ℓ} (P : Text → Type κ) where
  pub lookup-AllKeys : (k : Text) (m : Map V) (v : V) → lookup k m ≡ some v → AllKeys P m → P k
  unfolding lookup
  lookup-AllKeys k [] v e h = absurd (ground arith)
  lookup-AllKeys k ((i, w) ∷ m) v e (q, h) = elim (Bool-cases (text_eq i k)) [
    | inl same ↦ subst P ((text_eq_iff i k).0 same) q
    | inr other ↦ lookup-AllKeys k m v (ground arith) h
  ]

module _ {ℓ} {V : Type ℓ} where
  pub length-retain-le : (known : Text → Bool) (m : Map V) → length (retain known m) ≤ length m
  unfolding retain
  length-retain-le known [] = omega arith
  length-retain-le known ((i, w) ∷ m) = ground (arith, length-retain-le known m)
