-- ===== src/Fleet/Precondition.antt =====
-- internal/fleet/txn.go: what a transaction that succeeds has checked and done, and which changes
-- the entity tag sees.
use pxe_beacon.Base.{
  ◌≡◌, refl, sym, ap, subst, ◌∙◌, Option, none, some, arith, inl, inr, if◌then◌else◌, Bool-cases,
  is_empty, ok, Text, text_eq, text_eq_iff, text_eq_refl, Map, lookup, insert, lookup-insert,
}
use mathlib.Core.Option
use mathlib.Core.Option.{some-injective}
use pxe_beacon.Mac.{canonical_mac}
use pxe_beacon.Fleet.{Profile, Machine, ConfigFile, Fleet, FleetError, Disk}
use pxe_beacon.Fleet.Validate.{validate_profile}
use pxe_beacon.Fleet.Saving.{Fault, config_of, save}
use pxe_beacon.Fleet.Txn.{
  World, with_machines, settle, etag_input, profile_etag, etag_of, etag, create_new, create_valid,
  create_and_save, update_prior, update_valid, update_and_save,
}
use pxe_beacon.Fleet.Atomic.{save_ok, settle_ok}

-- The file holds the encoding of the fleet in memory.
abbrev pub IsSaved : (ConfigFile → Option Text) → World → Type 0
IsSaved encode w = (t : Text) × (encode (config_of w.fleet) ≡ some t) × (w.file ≡ some t)

-- The world after writing the profile `p` at the address `c`.
pub record Wrote (encode : ConfigFile → Option Text) (w : World) (c : Text) (p : Profile)
    (w' : World) : Type 0 where
  pub machines :
      (j : Text)
      → lookup j w'.fleet.machines ≡ (if text_eq c j then some p else lookup j w.fleet.machines)
  pub saved : IsSaved encode w'

module _ (digest : Text → Text) (encode : ConfigFile → Option Text) (disk : Disk) (fault : Fault)
    (w : World) where
  settled :
      (c : Text) (p : Profile) (back : Map Profile) (t tag : Text)
      → (settle w.fleet
          (insert c p w.fleet.machines)
          back
          tag
          (save encode fault (with_machines w.fleet (insert c p w.fleet.machines)) w.file)).1
        ≡ ok t
      → (tag ≡ t)
        × Wrote encode w c p
            (settle w.fleet
              (insert c p w.fleet.machines)
              back
              tag
              (save encode fault (with_machines w.fleet (insert c p w.fleet.machines)) w.file)).0
  settled c p back t tag h =
      let (fine, same, after) = settle_ok w _ back tag _ t h in
      let (text, encoded, written) = save_ok encode fault _ w.file fine in
      (
        same,
        subst (Wrote encode w c p) (sym after) (record {
          machines = λ j. lookup-insert c j p w.fleet.machines;
          saved = (text, encoded, written);
        }),
      )

  create_new_ok :
      (c : Text) (p : Profile) (o : Option Profile) (t : Text)
      → (create_new digest encode disk fault w c p o).1 ≡ ok t
      → (o ≡ none)
        × (profile_etag digest c p ≡ t)
        × Wrote encode w c p (create_new digest encode disk fault w c p o).0
  unfolding create_new
  create_new_ok c p (some prior) t h = cc
  create_new_ok c p none t h = let (a, b) = settled c p _ t _ h in (refl, a, b)

  update_prior_ok :
      (c : Text) (p : Profile) (if_match : Text) (o : Option Profile) (t : Text)
      → (update_prior digest encode disk fault w c p if_match o).1 ≡ ok t
      → (Option.map (profile_etag digest c) o ≡ some if_match)
        × (profile_etag digest c p ≡ t)
        × Wrote encode w c p (update_prior digest encode disk fault w c p if_match o).0
  unfolding update_prior
  update_prior_ok c p if_match none t h = cc
  update_prior_ok c p if_match (some prior) t h =
      elim (Bool-cases (text_eq (profile_etag digest c prior) if_match)) [
        | inr e ↦ absurd (ground arith)
        | inl e ↦
            let (a, b) = settled c p _ t _ (rw e at h) in
            (ap some ((text_eq_iff _ _).0 e), a, rw e b)
      ]

  create_valid_ok :
      (p : Profile) (o : Option Text) (v : Option FleetError) (t : Text)
      → (create_valid digest encode disk fault w p o v).1 ≡ ok t
      → (c : Text) × (o ≡ some c)
        × (v ≡ none)
        × (lookup c w.fleet.machines ≡ none)
        × (profile_etag digest c p ≡ t)
        × Wrote encode w c p (create_valid digest encode disk fault w p o v).0
  unfolding create_valid
  create_valid_ok p none v t h = cc
  create_valid_ok p (some c) (some e) t h = cc
  create_valid_ok p (some c) none t h =
      let (absent, tag, wrote) = create_new_ok c p _ t h in (c, refl, refl, absent, tag, wrote)

  update_valid_ok :
      (p : Profile) (if_match : Text) (o : Option Text) (v : Option FleetError) (t : Text)
      → (update_valid digest encode disk fault w p if_match o v).1 ≡ ok t
      → (c : Text) × (o ≡ some c)
        × (v ≡ none)
        × (Option.map (profile_etag digest c) (lookup c w.fleet.machines) ≡ some if_match)
        × (profile_etag digest c p ≡ t)
        × Wrote encode w c p (update_valid digest encode disk fault w p if_match o v).0
  unfolding update_valid
  update_valid_ok p if_match none v t h = cc
  update_valid_ok p if_match (some c) (some e) t h = cc
  update_valid_ok p if_match (some c) none t h = elim (Bool-cases (is_empty if_match)) [
    | inl e ↦ absurd (ground arith)
    | inr e ↦
        let (current, tag, wrote) = update_prior_ok c p if_match _ t (rw e at h) in
        (c, refl, refl, current, tag, rw e wrote)
  ]

etag-known :
    (digest : Text → Text) (f : Fleet) (mac c : Text)
    → canonical_mac mac ≡ some c
    → etag digest f mac ≡ Option.map (profile_etag digest c) (lookup c f.machines)
unfolding etag etag_of
etag-known digest f mac c known = rw (known, etag_of)

etag-Wrote :
    (digest : Text → Text) (encode : ConfigFile → Option Text) (w w' : World) (mac c : Text)
    (p : Profile)
    → canonical_mac mac ≡ some c
    → Wrote encode w c p w'
    → etag digest w'.fleet mac ≡ some (profile_etag digest c p)
etag-Wrote digest encode w w' mac c p known wrote =
    rw (etag-known digest w'.fleet mac c known, wrote.machines c, text_eq_refl c)

-- A creation that succeeds was for an address that was not in the fleet, with a profile that passes
-- the validation. It writes that profile and no other, in memory and to the file, and the tag that
-- it returns is the one that the machine now has.
pub create_and_save_ok :
    (digest : Text → Text) (encode : ConfigFile → Option Text) (disk : Disk) (fault : Fault)
    (w : World) (m : Machine) (t : Text)
    → (create_and_save digest encode disk fault w m).1 ≡ ok t
    → (c : Text) × (canonical_mac m.mac ≡ some c)
      × (validate_profile disk m.profile ≡ none)
      × (lookup c w.fleet.machines ≡ none)
      × Wrote encode w c m.profile (create_and_save digest encode disk fault w m).0
      × (etag digest (create_and_save digest encode disk fault w m).0.fleet m.mac ≡ some t)
unfolding create_and_save
create_and_save_ok digest encode disk fault w m t h =
    let (c, known, valid, absent, tag, wrote) =
      create_valid_ok digest encode disk fault w m.profile (canonical_mac m.mac)
        (validate_profile disk m.profile) t h in
    (
      c,
      known,
      valid,
      absent,
      wrote,
      etag-Wrote digest encode w _ m.mac c m.profile known wrote ∙ ap some tag,
    )

-- An update that succeeds named the tag that the machine had, and its profile passes the
-- validation. It writes that profile and no other, in memory and to the file, and the tag that it
-- returns is the one that the machine now has.
pub update_and_save_ok :
    (digest : Text → Text) (encode : ConfigFile → Option Text) (disk : Disk) (fault : Fault)
    (w : World) (m : Machine) (if_match t : Text)
    → (update_and_save digest encode disk fault w m if_match).1 ≡ ok t
    → (c : Text) × (canonical_mac m.mac ≡ some c)
      × (validate_profile disk m.profile ≡ none)
      × (etag digest w.fleet m.mac ≡ some if_match)
      × Wrote encode w c m.profile (update_and_save digest encode disk fault w m if_match).0
      × (etag digest (update_and_save digest encode disk fault w m if_match).0.fleet m.mac ≡ some t)
unfolding update_and_save
update_and_save_ok digest encode disk fault w m if_match t h =
    let (c, known, valid, current, tag, wrote) =
      update_valid_ok digest encode disk fault w m.profile if_match (canonical_mac m.mac)
        (validate_profile disk m.profile) t h in
    (
      c,
      known,
      valid,
      etag-known digest w.fleet m.mac c known ∙ current,
      wrote,
      etag-Wrote digest encode w _ m.mac c m.profile known wrote ∙ ap some tag,
    )

profile_etag-rescue :
    (digest : Text → Text) (c : Text) (p : Profile) (rescue : Text)
    → profile_etag digest c (record p { rescue = rescue }) ≡ profile_etag digest c p
unfolding profile_etag etag_input
profile_etag-rescue digest c p rescue = refl

-- An update that changes nothing but the custom rescue file of a machine leaves its tag as it was,
-- so the tag that other clients hold is still accepted afterwards.
pub update_rescue_keeps_etag :
    (digest : Text → Text) (encode : ConfigFile → Option Text) (disk : Disk) (fault : Fault)
    (w : World) (mac c : Text) (p : Profile) (rescue if_match t : Text)
    → canonical_mac mac ≡ some c
    → lookup c w.fleet.machines ≡ some p
    → (update_and_save digest encode disk fault w
        (record { mac = mac; profile = record p { rescue = rescue } })
        if_match).1
      ≡ ok t
    → (t ≡ if_match)
      × (etag digest
            (update_and_save digest encode disk fault w
              (record { mac = mac; profile = record p { rescue = rescue } })
              if_match).0.fleet
            mac
          ≡ some if_match)
update_rescue_keeps_etag digest encode disk fault w mac c p rescue if_match t known found h =
    let (d, known', valid, current, wrote, after) =
      update_and_save_ok digest encode disk fault w
        (record { mac = mac; profile = record p { rescue = rescue } }) if_match t h in
    let same : d ≡ c = some-injective _ _ (sym known' ∙ known) in
    let now : etag digest w.fleet mac ≡ some (profile_etag digest c p) =
      etag-known digest w.fleet mac c known ∙ ap (Option.map (profile_etag digest c)) found in
    let then_ : some t ≡ some (profile_etag digest c p) =
      sym after
      ∙ etag-Wrote digest encode w _ mac d (record p { rescue = rescue }) known' wrote
      ∙ ap some (profile_etag-rescue digest d p rescue ∙ ap (λ x. profile_etag digest x p) same) in
    let kept : t ≡ if_match = some-injective _ _ (then_ ∙ sym now ∙ current) in
    (kept, after ∙ ap some kept)
