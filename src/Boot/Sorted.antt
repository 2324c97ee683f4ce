-- ===== src/Boot/Sorted.antt =====
-- Sorting the machines, as internal/boot/dispatch.go does, changes no lookup and no property of the
-- addresses.
use pxe_beacon.Base.{
  ◌≡◌, refl, inl, inr, arith, Bool, none, [], ◌∷◌, Bool-cases, Text, text_eq_iff, Map, lookup,
  IsUnique, AllKeys, insert_by, sort_by,
}

module _ {V : Type 0} (less : Text × V → Text × V → Bool) where
  lookup-insert_by :
      (c k : Text) (v : V) (m : Map V)
      → lookup k m ≡ none
      → lookup c (insert_by less (k, v) m) ≡ lookup c ((k, v) ∷ m)
  unfolding lookup insert_by
  lookup-insert_by c k v [] h = refl
  lookup-insert_by c k v ((j, w) ∷ m) h =
      ground (arith, text_eq_iff j k, text_eq_iff j c, text_eq_iff k c, lookup-insert_by c k v m)

  pub lookup-sort_by : (c : Text) (m : Map V) → IsUnique m → lookup c (sort_by less m) ≡ lookup c m
  unfolding lookup sort_by
  lookup-sort_by c [] u = refl
  lookup-sort_by c ((k, v) ∷ m) (fresh, u) =
      ground
        (arith, lookup-sort_by k m u, lookup-sort_by c m u, lookup-insert_by c k v (sort_by less m))

  insert_by-AllKeys :
      (P : Text → Type 0) (k : Text) (v : V) (m : Map V)
      → P k
      → AllKeys P m
      → AllKeys P (insert_by less (k, v) m)
  unfolding insert_by
  insert_by-AllKeys P k v [] p h = (p, tt)
  insert_by-AllKeys P k v ((j, w) ∷ m) p (q, h) = elim (Bool-cases (less (j, w) (k, v))) [
    | inl e ↦ rw e (q, insert_by-AllKeys P k v m p h)
    | inr e ↦ rw e (p, (q, h))
  ]

  pub sort_by-AllKeys : (P : Text → Type 0) (m : Map V) → AllKeys P m → AllKeys P (sort_by less m)
  unfolding sort_by
  sort_by-AllKeys P [] h = tt
  sort_by-AllKeys P ((k, v) ∷ m) (p, h) =
      insert_by-AllKeys P k v (sort_by less m) p (sort_by-AllKeys P m h)
