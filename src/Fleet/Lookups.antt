-- ===== src/Fleet/Lookups.antt =====
-- Lookup and mergeParams of internal/fleet/fleet.go.
use pxe_beacon.Base.{
  ◌≡◌, refl, ap, subst, ◌∙◌, Option, none, some, [], ◌∷◌, inl, inr, Bool-cases, Option-cases, Text,
  text_eq, text_eq_iff, Map, lookup, insert, lookup-insert, IsUnique,
}
use pxe_beacon.Mac.{canonical_mac}
use pxe_beacon.Fleet.{Profile, Fleet, overlay, merge_params, resolved, profile_of, lookup_machine}

abbrev pub first_some {ℓ} : {A : Type ℓ} → Option A → Option A → Option A
first_some none second = second
first_some (some a) second = some a

lookup-overlay :
    (out over : Map Text) (k : Text)
    → IsUnique over
    → lookup k (overlay out over) ≡ first_some (lookup k over) (lookup k out)
unfolding overlay lookup
lookup-overlay out [] k u = refl
lookup-overlay out ((j, v) ∷ over) k (fresh, u) =
    lookup-overlay (insert j v out) over k u ∙ elim (Bool-cases (text_eq j k)) [
      | inl e ↦
          let gone : lookup k over ≡ none =
            subst (λ i. lookup i over ≡ none) ((text_eq_iff j k).0 e) fresh in
          rw (lookup-insert, e, gone)
      | inr e ↦ rw (lookup-insert, e)
    ]

pub first_some-none {ℓ} : {A : Type ℓ} (o : Option A) → first_some o none ≡ o
first_some-none none = refl
first_some-none (some a) = refl

lookup-merge_params :
    (base over : Map Text) (k : Text)
    → IsUnique base
    → IsUnique over
    → lookup k (merge_params base over) ≡ first_some (lookup k over) (lookup k base)
unfolding merge_params lookup
lookup-merge_params base over k u v =
    lookup-overlay (overlay [] base) over k v
    ∙ ap (first_some (lookup k over)) (lookup-overlay [] base k u ∙ first_some-none (lookup k base))

pub lookup_machine_lem :
    (f : Fleet) (mac c : Text) (p : Profile)
    → canonical_mac mac ≡ some c
    → lookup c f.machines ≡ some p
    → lookup_machine f mac ≡ record p { params = merge_params f.defaults.params p.params }
unfolding lookup_machine
lookup_machine_lem f mac c p known found = rw (known, profile_of, found, resolved)

-- A machine of the fleet gets its own profile, in which each parameter is the machine's own where
-- it has one and the default where it has none.
pub lookup_machine_known :
    (f : Fleet) (mac c : Text) (p : Profile) (k : Text)
    → canonical_mac mac ≡ some c
    → lookup c f.machines ≡ some p
    → IsUnique f.defaults.params
    → IsUnique p.params
    → (lookup k (lookup_machine f mac).params
        ≡ first_some (lookup k p.params) (lookup k f.defaults.params))
      × (record (lookup_machine f mac) { params = p.params } ≡ p)
lookup_machine_known f mac c p k known found u v =
    let e = lookup_machine_lem f mac c p known found in
    (
      ap (λ (q : Profile). lookup k q.params) e
          ∙ lookup-merge_params f.defaults.params p.params k u v,
      ap (λ (q : Profile). record q { params = p.params }) e,
    )

-- Every other address, malformed ones included, gets the defaults.
pub lookup_machine_unknown :
    (f : Fleet) (mac : Text)
    → ((c : Text) → canonical_mac mac ≡ some c → lookup c f.machines ≡ none)
    → lookup_machine f mac ≡ f.defaults
unfolding lookup_machine resolved profile_of
lookup_machine_unknown f mac absent = elim (Option-cases (canonical_mac mac)) [
  | inl e ↦ rw (e, profile_of, resolved)
  | inr (c, e) ↦ rw (e, profile_of, absent c e, resolved)
]
