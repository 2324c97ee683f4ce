-- ===== src/Httpd/ReadBack.antt =====
-- internal/httpd/api.go: what a client reads after a request that creates or updates a machine.
use pxe_beacon.Base.{
  ℕ, ◌≡◌, refl, sym, ap, subst, ◌∙◌, true, Option, none, some, arith, inl, inr, if◌then◌else◌,
  Bool-cases, is_some, is_empty, Text, text_eq_refl, lookup, Result, ok, err,
}
use mathlib.Core.Option.{some-injective}
use pxe_beacon.Mac.{canonical_mac}
use pxe_beacon.Mac.Canonical.{canonical_mac_idempotent}
use pxe_beacon.Fleet.{
  Profile, ConfigFile, Fleet, FleetError, Disk, resolved, profile_of, lookup_machine,
}
use pxe_beacon.Fleet.Saving.{Fault}
use pxe_beacon.Fleet.Txn.{World, etag, create_and_save, update_and_save}
use pxe_beacon.Fleet.Precondition.{Wrote, create_and_save_ok, update_and_save_ok}
use pxe_beacon.Httpd.{
  Server, refused, mac_not_in_fleet, canonical_member, fleet_member, fleet_ready,
}
use pxe_beacon.Httpd.Events.{empty_unknown}
use pxe_beacon.Httpd.Machines.{
  Site, done, MachineConfig, require_json, profile_from_body, with_world, tagged, Request, create,
  update, delete, create_profile, create_canonical, create_body, update_profile, update_body,
  update_canonical, serve_ready, serve,
}
use pxe_beacon.Httpd.Paging.{build_desired, build_observed, build_machine_view}
use pxe_beacon.Httpd.Reading.{machine_answer, machine_of, get_machine}

-- The address and the body of a request that writes a machine.
abbrev pub written : Request → Option (Text × MachineConfig)
written (create ct none) = none
written (create ct (some b)) = some (b.mac, b)
written (update ct raw none if_match) = none
written (update ct raw (some b) if_match) = some (raw, b)
written (delete raw if_match) = none

module _ (digest : Text → Text) (encode : ConfigFile → Option Text) (disk : Disk) (fault : Fault)
    (x : Site) where
  abbrev at_world : Fleet → World
  at_world f = record { fleet = f; file = x.file }

  -- The site holds the profile of the body, and the tag of the reply is the tag of the machine.
  record IsWritten (c : Text) (b : MachineConfig) (t : Option Text) (y : Site) : Type 0 where
    old : Fleet
    new : World
    profile : Profile
    given : profile_from_body old b ≡ some profile
    wrote : Wrote encode (at_world old) c profile new
    tag : etag digest new.fleet c ≡ t
    left : y ≡ with_world x.server new

  -- A result of a transaction that writes.
  abbrev Writes : Text → Fleet → Profile → World × Result FleetError Text → Type 0
  Writes c f p r =
      (tag : Text)
      → r.1 ≡ ok tag
      → Wrote encode (at_world f) c p r.0 × (etag digest r.0.fleet c ≡ some tag)

  Wrote-same :
      (w w' : World) (c d : Text) (p : Profile)
      → d ≡ c
      → Wrote encode w d p w'
      → Wrote encode w c p w'
  Wrote-same w w' c d p same wrote = subst (λ k. Wrote encode w k p w') same wrote

  IsWritten-same :
      (c : Text) (a b : MachineConfig) (t : Option Text) (y : Site)
      → a ≡ b
      → IsWritten c a t y
      → IsWritten c b t y
  IsWritten-same c a b t y same w = subst (λ k. IsWritten c k t y) same w

  create-Writes :
      (c : Text) (f : Fleet) (p : Profile)
      → canonical_mac c ≡ some c
      → Writes c f p
          (create_and_save digest encode disk fault (at_world f) (record { mac = c; profile = p }))
  create-Writes c f p own tag h =
      let (d, known, valid, absent, wrote, after) =
        create_and_save_ok digest encode disk fault (at_world f) (record { mac = c; profile = p })
          tag h in
      let same : d ≡ c = some-injective _ _ (sym known ∙ own) in
      (Wrote-same (at_world f) _ c d p same wrote, after)

  update-Writes :
      (c if_match : Text) (f : Fleet) (p : Profile)
      → canonical_mac c ≡ some c
      → Writes c f p (
          update_and_save digest encode disk fault
            (at_world f)
            (record { mac = c; profile = p })
            if_match)
  update-Writes c if_match f p own tag h =
      let (d, known, valid, current, wrote, after) =
        update_and_save_ok digest encode disk fault (at_world f) (record { mac = c; profile = p })
          if_match tag h in
      let same : d ≡ c = some-injective _ _ (sym known ∙ own) in
      (Wrote-same (at_world f) _ c d p same wrote, after)

  tagged-IsWritten :
      (c : Text) (b : MachineConfig) (f : Fleet) (p : Profile) (k n : ℕ) (t : Option Text)
      (r : World × Result FleetError Text)
      → profile_from_body f b ≡ some p
      → Writes c f p r
      → (tagged x.server k r).1 ≡ done n t
      → IsWritten c b t (tagged x.server k r).0
  unfolding tagged
  tagged-IsWritten c b f p k n t (w, err e) given writes d = cc
  tagged-IsWritten c b f p k n t (w, ok etag) given writes d =
      let (wrote, tag) = writes etag refl in
      record {
        old = f;
        new = w;
        profile = p;
        given = given;
        wrote = wrote;
        tag = tag ∙ (cc);
        left = refl;
      }

  create_profile-IsWritten :
      (c : Text) (b : MachineConfig) (f : Fleet) (o : Option Profile) (n : ℕ) (t : Option Text)
      → canonical_mac c ≡ some c
      → profile_from_body f b ≡ o
      → (create_profile digest encode disk fault x f c o).1 ≡ done n t
      → IsWritten c b t (create_profile digest encode disk fault x f c o).0
  unfolding create_profile
  create_profile-IsWritten c b f none n t own given d = cc
  create_profile-IsWritten c b f (some p) n t own given d =
      tagged-IsWritten c b f p 201 n t _ given (create-Writes c f p own) d

  update_profile-IsWritten :
      (c if_match : Text) (b : MachineConfig) (f : Fleet) (o : Option Profile) (n : ℕ)
      (t : Option Text)
      → canonical_mac c ≡ some c
      → profile_from_body f b ≡ o
      → (update_profile digest encode disk fault x f c if_match o).1 ≡ done n t
      → IsWritten c b t (update_profile digest encode disk fault x f c if_match o).0
  unfolding update_profile
  update_profile-IsWritten c if_match b f none n t own given d = cc
  update_profile-IsWritten c if_match b f (some p) n t own given d =
      tagged-IsWritten c b f p 200 n t _ given (update-Writes c if_match f p own) d

  serve_ready-IsWritten :
      (r : Request) (mac c : Text) (b : MachineConfig) (o : Option Fleet) (n : ℕ) (t : Option Text)
      → written r ≡ some (mac, b)
      → canonical_mac mac ≡ some c
      → (serve_ready digest encode disk fault x r o).1 ≡ done n t
      → IsWritten c b t (serve_ready digest encode disk fault x r o).0
  unfolding serve_ready create_body create_canonical update_canonical update_body
  serve_ready-IsWritten r mac c b none n t e known d = cc
  serve_ready-IsWritten (create ct none) mac c b (some f) n t e known d = cc
  serve_ready-IsWritten (create ct (some b')) mac c b (some f) n t e known d =
      let same : b' ≡ b = ap (λ q. q.1) (some-injective _ _ e) in
      let known' : canonical_mac b'.mac ≡ some c =
        ap (λ q. canonical_mac q.0) (some-injective _ _ e) ∙ known in
      elim (Bool-cases (require_json ct)) [
        | inl j ↦
            rw (j, known')
              (IsWritten-same c b' b t _ same (
                create_profile-IsWritten c b' f _ n t (canonical_mac_idempotent b'.mac c known')
                  refl (rw (j, known') at d)))
        | inr j ↦ absurd (ground arith)
      ]
  serve_ready-IsWritten (update ct raw none if_match) mac c b (some f) n t e known d = cc
  serve_ready-IsWritten (update ct raw (some b') if_match) mac c b (some f) n t e known d =
      let same : b' ≡ b = ap (λ q. q.1) (some-injective _ _ e) in
      let known' : canonical_mac raw ≡ some c =
        ap (λ q. canonical_mac q.0) (some-injective _ _ e) ∙ known in
      elim (Bool-cases (require_json ct)) [
        | inl j ↦
            rw (j, known')
              (IsWritten-same c b' b t _ same (
                update_profile-IsWritten c if_match b' f _ n t
                  (canonical_mac_idempotent raw c known') refl (rw (j, known') at d)))
        | inr j ↦ absurd (ground arith)
      ]
  serve_ready-IsWritten (delete raw if_match) mac c b (some f) n t e known d = cc

  serve-IsWritten :
      (r : Request) (mac c : Text) (b : MachineConfig) (n : ℕ) (t : Option Text)
      → written r ≡ some (mac, b)
      → canonical_mac mac ≡ some c
      → (serve digest encode disk fault x r).1 ≡ done n t
      → IsWritten c b t (serve digest encode disk fault x r).0 × (is_some x.server.tracker ≡ true)
  unfolding serve
  serve-IsWritten r mac c b n t e known d = elim (Bool-cases (fleet_ready x.server)) [
    | inl ready ↦ (
      rw ready (serve_ready-IsWritten r mac c b x.server.fleet n t e known (rw ready at d)),
      ground arith,
    )
    | inr unready ↦ absurd (ground arith)
  ]

profile_from_body_keeps :
    (f : Fleet) (b : MachineConfig) (p : Profile)
    → profile_from_body f b ≡ some p
    → (p.name ≡ b.name) × (p.boot ≡ b.boot)
unfolding profile_from_body
profile_from_body_keeps f b p h = ground arith

lookup_machine-known :
    (f : Fleet) (c : Text) (p : Profile)
    → canonical_mac c ≡ some c
    → lookup c f.machines ≡ some p
    → ((lookup_machine f c).name ≡ p.name) × ((lookup_machine f c).boot ≡ p.boot)
unfolding lookup_machine profile_of resolved
lookup_machine-known f c p own found = rw (own, profile_of, found) (refl, refl)

-- The machine that a request at the canonical address `c` reads.
machine_of-known :
    (digest : Text → Text) (s : Server) (now : ℕ) (raw c name boot : Text) (f : Fleet)
    → canonical_mac raw ≡ some c
    → (lookup_machine f c).name ≡ name
    → (lookup_machine f c).boot ≡ boot
    → machine_of digest s now raw (some f) ≡ (
        if is_empty name
        then err (refused 404 mac_not_in_fleet)
        else ok (
          etag digest f c,
          record {
            mac = c;
            name = name;
            boot = boot;
            desired = build_desired s.pending now c;
            observed = build_observed s now c;
          },
        ))
unfolding machine_of fleet_member canonical_member machine_answer build_machine_view
machine_of-known digest s now raw c name boot f known named booted =
    elim (Bool-cases (is_empty raw)) [
      | inl e ↦ absurd (empty_unknown raw c e known)
      | inr e ↦ elim (Bool-cases (is_empty name)) [
        | inl gone ↦ rw (e, known, named, gone) refl
        | inr there ↦ rw (e, known, named, there, machine_answer, named, booted) refl
      ]
    ]

-- After a request that creates or updates a machine and succeeds, a request for the machine, under
-- any spelling of its address, is answered with the entity tag of the first reply and with the name
-- and the boot target that were sent; what is pending for it has not changed. But where the name
-- that was sent is empty, the machine is refused as one that is not in the fleet.
pub serve-get_machine :
    (digest : Text → Text) (encode : ConfigFile → Option Text) (disk : Disk) (fault : Fault)
    (x : Site) (r : Request) (mac c raw : Text) (b : MachineConfig) (now n : ℕ) (t : Option Text)
    → written r ≡ some (mac, b)
    → canonical_mac mac ≡ some c
    → canonical_mac raw ≡ some c
    → (serve digest encode disk fault x r).1 ≡ done n t
    → get_machine digest (serve digest encode disk fault x r).0.server now raw ≡ (
        if is_empty b.name
        then err (refused 404 mac_not_in_fleet)
        else ok (
          t,
          record {
            mac = c;
            name = b.name;
            boot = b.boot;
            desired = build_desired x.server.pending now c;
            observed = build_observed (serve digest encode disk fault x r).0.server now c;
          },
        ))
unfolding get_machine
serve-get_machine digest encode disk fault x r mac c raw b now n t e known known' d =
    let (w, tracked) = serve-IsWritten digest encode disk fault x r mac c b n t e known d in
    let own : canonical_mac c ≡ some c = canonical_mac_idempotent raw c known' in
    let found : lookup c w.new.fleet.machines ≡ some w.profile =
      rw (w.wrote.machines c, text_eq_refl c) refl in
    let (name, boot) = profile_from_body_keeps w.old b w.profile w.given in
    let (named, booted) = lookup_machine-known w.new.fleet c w.profile own found in
    rw (w.left, tracked, ← w.tag)
      (machine_of-known digest (with_world x.server w.new).server now raw c b.name b.boot
        w.new.fleet known' (named ∙ name) (booted ∙ boot))
