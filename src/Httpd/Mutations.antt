-- ===== src/Httpd/Mutations.antt =====
-- internal/httpd/api.go: what the requests that change the fleet leave behind.
use pxe_beacon.Base.{
  ℕ, ◌≡◌, refl, sym, subst, Bool, true, false, Option, none, some, inl, inr, if◌then◌else◌,
  Option-cases, Text, Result, ok, err,
}
use pxe_beacon.Mac.{canonical_mac}
use pxe_beacon.Fleet as Fleet
use pxe_beacon.Fleet.{Profile, Machine, ConfigFile, Fleet, FleetError, Disk}
use pxe_beacon.Fleet.Saving.{Fault}
use pxe_beacon.Fleet.Txn.{World}
use pxe_beacon.Fleet.Atomic.{SameFleet, Unchanged, failure_of, attempt, attempt_err}
use pxe_beacon.Httpd.{ErrorCode, fleet_ready}
use pxe_beacon.Httpd.Machines.{
  Site, Reply, failed, MachineConfig, require_json, profile_from_body, with_world, tagged, deleted,
  Request, create, update, delete, create_profile, create_canonical, create_body, update_profile,
  update_body, update_canonical, delete_canonical, serve_ready, serve,
}

-- Both have a fleet, with the same machines and settings, or neither has one.
abbrev pub SameFleets : Option Fleet → Option Fleet → Type 0
SameFleets none none = Unit
SameFleets (some f) (some g) = SameFleet f g
SameFleets _ _ = ⊥

-- Nothing that a request could change has changed.
pub record Untouched (x y : Site) : Type 0 where
  pub fleets : SameFleets x.server.fleet y.server.fleet
  pub file : y.file ≡ x.file
  pub tracker : y.server.tracker ≡ x.server.tracker
  pub pending : y.server.pending ≡ x.server.pending

SameFleets-refl : (o : Option Fleet) → SameFleets o o
SameFleets-refl none = tt
SameFleets-refl (some f) = record {
  machines = λ c. refl;
  path = refl;
  base_dir = refl;
  defaults = refl;
}

Untouched-refl : (x : Site) → Untouched x x
Untouched-refl x = record {
  fleets = SameFleets-refl x.server.fleet;
  file = refl;
  tracker = refl;
  pending = refl;
}

-- A reply that fails comes with an untouched site.
abbrev Keeps : Site → Site × Reply → Type 0
Keeps x r = (code : ℕ) (e : ErrorCode) → r.1 ≡ failed code e → Untouched x r.0

refusal-Keeps : (x : Site) (r : Reply) → Keeps x (x, r)
refusal-Keeps x r code e h = Untouched-refl x

with_world-Untouched :
    (x : Site) (f : Fleet) (w : World)
    → x.server.fleet ≡ some f
    → Unchanged (record { fleet = f; file = x.file }) w
    → Untouched x (with_world x.server w)
with_world-Untouched x f w h (same, file) = record {
  fleets = subst (λ o. SameFleets o (some w.fleet)) (sym h) same;
  file = file;
  tracker = refl;
  pending = refl;
}

-- A failed transaction, as it is seen by the requests.
Unchanged-transaction {ℓ} :
    {A : Type ℓ} (w : World) (r : World × Result FleetError A) (y : FleetError)
    → ((z : FleetError) → (failure_of r).1 ≡ some z → Unchanged w (failure_of r).0)
    → r.1 ≡ err y
    → Unchanged w r.0
unfolding failure_of
Unchanged-transaction w (w', ok a) y k h = cc
Unchanged-transaction w (w', err e) y k h = k e refl

tagged-Keeps :
    (x : Site) (f : Fleet) (n : ℕ) (r : World × Result FleetError Text)
    → x.server.fleet ≡ some f
    → ((y : FleetError) → r.1 ≡ err y → Unchanged (record { fleet = f; file = x.file }) r.0)
    → Keeps x (tagged x.server n r)
unfolding tagged
tagged-Keeps x f n (w, ok tag) h k code e failure = cc
tagged-Keeps x f n (w, err y) h k code e failure = with_world-Untouched x f w h (k y refl)

deleted-Keeps :
    (x : Site) (f : Fleet) (c : Text) (r : World × Result FleetError Bool)
    → x.server.fleet ≡ some f
    → ((y : FleetError) → r.1 ≡ err y → Unchanged (record { fleet = f; file = x.file }) r.0)
    → Keeps x (deleted x.server c r)
unfolding deleted
deleted-Keeps x f c (w, ok existed) h k code e failure = cc
deleted-Keeps x f c (w, err y) h k code e failure = with_world-Untouched x f w h (k y refl)

module _ (digest : Text → Text) (encode : ConfigFile → Option Text) (disk : Disk) (fault : Fault)
    (x : Site) where
  abbrev at_world : Fleet → World
  at_world f = record { fleet = f; file = x.file }

  create_profile-Keeps :
      (f : Fleet) (c : Text) (p : Option Profile)
      → x.server.fleet ≡ some f
      → Keeps x (create_profile digest encode disk fault x f c p)
  unfolding create_profile attempt
  create_profile-Keeps f c none h = refusal-Keeps x _
  create_profile-Keeps f c (some p) h =
      let m : Machine = record { mac = c; profile = p } in
      tagged-Keeps x f 201 _ h (λ y.
        Unchanged-transaction (at_world f) _ y
          (attempt_err digest encode disk fault (at_world f) (Fleet.Atomic.create m)))

  update_profile-Keeps :
      (f : Fleet) (c if_match : Text) (p : Option Profile)
      → x.server.fleet ≡ some f
      → Keeps x (update_profile digest encode disk fault x f c if_match p)
  unfolding update_profile attempt
  update_profile-Keeps f c if_match none h = refusal-Keeps x _
  update_profile-Keeps f c if_match (some p) h =
      let m : Machine = record { mac = c; profile = p } in
      tagged-Keeps x f 200 _ h (λ y.
        Unchanged-transaction (at_world f) _ y
          (attempt_err digest encode disk fault (at_world f) (Fleet.Atomic.update m if_match)))

  delete_canonical-Keeps :
      (f : Fleet) (if_match : Text) (o : Option Text)
      → x.server.fleet ≡ some f
      → Keeps x (delete_canonical digest encode disk fault x f if_match o)
  unfolding delete_canonical attempt
  delete_canonical-Keeps f if_match none h = refusal-Keeps x _
  delete_canonical-Keeps f if_match (some c) h = deleted-Keeps x f c _ h (λ y.
      Unchanged-transaction (at_world f) _ y
        (attempt_err digest encode disk fault (at_world f) (Fleet.Atomic.remove c if_match)))

  create_body-Keeps :
      (f : Fleet) (body : Option MachineConfig)
      → x.server.fleet ≡ some f
      → Keeps x (create_body digest encode disk fault x f body)
  unfolding create_body create_canonical
  create_body-Keeps f none h = refusal-Keeps x _
  create_body-Keeps f (some b) h = elim (Option-cases (canonical_mac b.mac)) [
    | inl e ↦ rw e (refusal-Keeps x _)
    | inr (c, e) ↦ rw e (create_profile-Keeps f c (profile_from_body f b) h)
  ]

  update_canonical-Keeps :
      (f : Fleet) (if_match : Text) (body : Option MachineConfig) (o : Option Text)
      → x.server.fleet ≡ some f
      → Keeps x (update_canonical digest encode disk fault x f if_match body o)
  unfolding update_canonical update_body
  update_canonical-Keeps f if_match body none h = refusal-Keeps x _
  update_canonical-Keeps f if_match none (some c) h = refusal-Keeps x _
  update_canonical-Keeps f if_match (some b) (some c) h =
      update_profile-Keeps f c if_match (profile_from_body f b) h

  if-Keeps :
      (b : Bool) (r : Site × Reply) (refused : Reply)
      → Keeps x r
      → Keeps x (if b then r else (x, refused))
  if-Keeps true r refused k = k
  if-Keeps false r refused k = refusal-Keeps x refused

  serve_ready-Keeps :
      (r : Request) (o : Option Fleet)
      → x.server.fleet ≡ o
      → Keeps x (serve_ready digest encode disk fault x r o)
  unfolding serve_ready
  serve_ready-Keeps r none h = refusal-Keeps x _
  serve_ready-Keeps (create ct body) (some f) h =
      if-Keeps (require_json ct) _ _ (create_body-Keeps f body h)
  serve_ready-Keeps (update ct raw body if_match) (some f) h =
      if-Keeps (require_json ct) _ _ (update_canonical-Keeps f if_match body (canonical_mac raw) h)
  serve_ready-Keeps (delete raw if_match) (some f) h =
      delete_canonical-Keeps f if_match (canonical_mac raw) h

-- A request to create, update or delete a machine that is answered with an error, for whatever
-- reason, leaves the fleet, the file, the tracker and what is pending as they were.
pub serve-failed :
    (digest : Text → Text) (encode : ConfigFile → Option Text) (disk : Disk) (fault : Fault)
    (x : Site) (r : Request) (code : ℕ) (e : ErrorCode)
    → (serve digest encode disk fault x r).1 ≡ failed code e
    → Untouched x (serve digest encode disk fault x r).0
unfolding serve
serve-failed digest encode disk fault x r =
    if-Keeps digest encode disk fault x (fleet_ready x.server) _ _
      (serve_ready-Keeps digest encode disk fault x r x.server.fleet refl)
