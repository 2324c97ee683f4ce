-- ===== src/Sightings/Oldest.antt =====
-- The loop of evictOldestLocked of internal/sightings/sightings.go, which looks for the oldest
-- entry.
use pxe_beacon.Base.{
  ℕ, ◌≤◌, ◌<◌, ◌≡◌, refl, sym, ap, subst, ◌⊎◌, inl, inr, true, false, some, [], ◌∷◌, arith, ◌≢◌,
  ltb→lt, ltb→ge, ltb, Bool-cases, is_empty, All, Text, text_eq_iff, Map, lookup, IsUnique, AllKeys,
}
use pxe_beacon.Sightings.{Entry, oldest_from}

-- The key `k` stands in the map with the time `t`.
abbrev pub Occurs : Text → ℕ → Map Entry → Type 0
Occurs k t [] = ⊥
Occurs k t ((j, e) ∷ m) = ((k ≡ j) × (t ≡ e.last_seen)) ⊎ Occurs k t m

pub Occurs-lookup :
    (k : Text) (t : ℕ) (m : Map Entry)
    → IsUnique m
    → Occurs k t m
    → (e : Entry) × (lookup k m ≡ some e) × (e.last_seen ≡ t)
unfolding lookup
Occurs-lookup k t [] u h = elim h [ ]
Occurs-lookup k t ((j, e) ∷ m) (fresh, u) (inl (same, at)) =
    (e, ground (arith, text_eq_iff j k), sym at)
Occurs-lookup k t ((j, e) ∷ m) (fresh, u) (inr h) =
    let (x, found, at) = Occurs-lookup k t m u h in
    (x, ground (arith, text_eq_iff j k, ap (λ (i : Text). lookup i m)), at)

abbrev pub IsNonempty : Text → Type 0
IsNonempty k = is_empty k ≡ false

-- What the loop has found: its start or an entry of the map, and no entry of the map is older.
abbrev IsFound : Text × ℕ → Text → ℕ → Map Entry → Type 0
IsFound r mac at m =
    (r.1 ≤ at)
    × All (λ (x : Text × Entry). r.1 ≤ x.1.last_seen) m
    × ((r ≡ (mac, at)) ⊎ Occurs r.0 r.1 m)

IsFound-older :
    (r : Text × ℕ) (k mac : Text) (at : ℕ) (e : Entry) (m : Map Entry)
    → e.last_seen < at
    → IsFound r k e.last_seen m
    → IsFound r mac at ((k, e) ∷ m)
IsFound-older r k mac at e m h (before, below, inl here) =
    (omega arith, (before, below), inr (inl (ap (λ x. x.0) here, ap (λ x. x.1) here)))
IsFound-older r k mac at e m h (before, below, inr there) =
    (omega arith, (before, below), inr (inr there))

IsFound-later :
    (r : Text × ℕ) (k mac : Text) (at : ℕ) (e : Entry) (m : Map Entry)
    → at ≤ e.last_seen
    → IsFound r mac at m
    → IsFound r mac at ((k, e) ∷ m)
IsFound-later r k mac at e m h (before, below, inl here) = (before, (omega arith, below), inl here)
IsFound-later r k mac at e m h (before, below, inr there) =
    (before, (omega arith, below), inr (inr there))

oldest_from_older :
    (mac k : Text) (at : ℕ) (e : Entry) (m : Map Entry)
    → ltb e.last_seen at ≡ true
    → IsNonempty mac
    → oldest_from k e.last_seen m ≡ oldest_from mac at ((k, e) ∷ m)
unfolding oldest_from
oldest_from_older mac k at e m older h = rw (h, older)

oldest_from_later :
    (mac k : Text) (at : ℕ) (e : Entry) (m : Map Entry)
    → ltb e.last_seen at ≡ false
    → IsNonempty mac
    → oldest_from mac at m ≡ oldest_from mac at ((k, e) ∷ m)
unfolding oldest_from
oldest_from_later mac k at e m later h = rw (h, later)

oldest_from-IsFound :
    (mac : Text) (at : ℕ) (m : Map Entry)
    → IsNonempty mac
    → AllKeys IsNonempty m
    → IsFound (oldest_from mac at m) mac at m
unfolding oldest_from
oldest_from-IsFound mac at [] h ks = (omega arith, tt, inl refl)
oldest_from-IsFound mac at ((k, e) ∷ m) h (nk, ks) = elim (Bool-cases (ltb e.last_seen at)) [
  | inl older ↦
      subst (λ r. IsFound r mac at ((k, e) ∷ m)) (oldest_from_older mac k at e m older h)
        (IsFound-older _ k mac at e m (ltb→lt _ _ older)
          (oldest_from-IsFound k e.last_seen m nk ks))
  | inr later ↦
      subst (λ r. IsFound r mac at ((k, e) ∷ m)) (oldest_from_later mac k at e m later h)
        (IsFound-later _ k mac at e m (ltb→ge _ _ later) (oldest_from-IsFound mac at m h ks))
]

-- Over a map that is not empty, the loop finds an entry that is not younger than any other.
pub oldest_from_entry :
    (m : Map Entry)
    → m ≢ []
    → AllKeys IsNonempty m
    → Occurs (oldest_from [] 0 m).0 (oldest_from [] 0 m).1 m
      × All (λ (x : Text × Entry). (oldest_from [] 0 m).1 ≤ x.1.last_seen) m
unfolding oldest_from
oldest_from_entry [] h ks = absurd (h refl)
oldest_from_entry ((k, e) ∷ m) h (nk, ks) =
    let (before, below, found) = oldest_from-IsFound k e.last_seen m nk ks in
    (
      elim found [
        | inl here ↦ inl (ap (λ x. x.0) here, ap (λ x. x.1) here)
        | inr there ↦ inr there
      ],
      (before, below),
    )
