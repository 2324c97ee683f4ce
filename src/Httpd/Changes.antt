-- ===== src/Httpd/Changes.antt =====
-- internal/httpd/api.go: what the requests that change the fleet have done when they succeed.
use pxe_beacon.Base.{
  ℕ, ◌≡◌, refl, sym, ap, ◌∙◌, Bool, true, Option, none, some, arith, inl, inr, if◌then◌else◌,
  Bool-cases, is_some, Text, text_eq, lookup, Result, ok, err,
}
use mathlib.Core.Option
use mathlib.Core.Option.{some-injective}
use pxe_beacon.Mac.{canonical_mac}
use pxe_beacon.Mac.Canonical.{canonical_mac_idempotent, spells, names}
use pxe_beacon.Pending.{Store, status}
use pxe_beacon.Pending.Cancelling.{status-cancel}
use pxe_beacon.Fleet.{Profile, ConfigFile, Fleet, FleetError, Disk}
use pxe_beacon.Fleet.Saving.{Fault}
use pxe_beacon.Fleet.Txn.{World, etag, update_and_save, delete_and_save}
use pxe_beacon.Fleet.Precondition.{update_and_save_ok}
use pxe_beacon.Fleet.Deletion.{delete_and_save_ok}
use pxe_beacon.Httpd.{fleet_ready}
use pxe_beacon.Httpd.Machines.{
  Site, done, MachineConfig, require_json, profile_from_body, with_world, tagged, cancel_pending,
  deleted, update, delete, update_profile, update_body, update_canonical, delete_canonical,
  serve_ready, serve,
}

spells-canonical : (c c' : Text) → canonical_mac c ≡ some c → spells c c' ≡ text_eq c c'
unfolding spells names
spells-canonical c c' own = rw own refl

module _ (digest : Text → Text) (encode : ConfigFile → Option Text) (disk : Disk) (fault : Fault)
    (x : Site) where
  abbrev at_world : Fleet → World
  at_world f = record { fleet = f; file = x.file }

  -- A successful update went through the transaction.
  record IsUpdated (c if_match : Text) (t : Option Text) (y : Site) : Type 0 where
    old : Fleet
    profile : Profile
    tag : Text
    had : x.server.fleet ≡ some old
    wrote :
        (update_and_save digest encode disk fault
          (at_world old)
          (record { mac = c; profile = profile })
          if_match).1
        ≡ ok tag
    tagged : t ≡ some tag
    left :
        y
        ≡ with_world x.server
            (update_and_save digest encode disk fault
              (at_world old)
              (record { mac = c; profile = profile })
              if_match).0

  tagged_done :
      (c if_match : Text) (f : Fleet) (p : Profile) (n : ℕ) (t : Option Text)
      (r : World × Result FleetError Text)
      → x.server.fleet ≡ some f
      → update_and_save digest encode disk fault
          (at_world f)
          (record { mac = c; profile = p })
          if_match
        ≡ r
      → (tagged x.server 200 r).1 ≡ done n t
      → IsUpdated c if_match t (tagged x.server 200 r).0
  unfolding tagged
  tagged_done c if_match f p n t (w, ok tag) h e d = record {
    old = f;
    profile = p;
    tag = tag;
    had = h;
    wrote = ap (λ r. r.1) e;
    tagged = cc;
    left = ap (λ r. with_world x.server r.0) (sym e);
  }
  tagged_done c if_match f p n t (w, err y) h e d = cc

  update_profile_done :
      (f : Fleet) (c if_match : Text) (o : Option Profile) (n : ℕ) (t : Option Text)
      → x.server.fleet ≡ some f
      → (update_profile digest encode disk fault x f c if_match o).1 ≡ done n t
      → IsUpdated c if_match t (update_profile digest encode disk fault x f c if_match o).0
  unfolding update_profile
  update_profile_done f c if_match none n t h d = cc
  update_profile_done f c if_match (some p) n t h d = tagged_done c if_match f p n t _ h refl d

  update_body_done :
      (f : Fleet) (c if_match : Text) (body : Option MachineConfig) (n : ℕ) (t : Option Text)
      → x.server.fleet ≡ some f
      → (update_body digest encode disk fault x f c if_match body).1 ≡ done n t
      → IsUpdated c if_match t (update_body digest encode disk fault x f c if_match body).0
  unfolding update_body
  update_body_done f c if_match none n t h d = cc
  update_body_done f c if_match (some b) n t h d =
      update_profile_done f c if_match (profile_from_body f b) n t h d

  serve_ready_update_done :
      (ct raw c if_match : Text) (body : Option MachineConfig) (n : ℕ) (t : Option Text)
      (o : Option Fleet)
      → x.server.fleet ≡ o
      → canonical_mac raw ≡ some c
      → (serve_ready digest encode disk fault x (update ct raw body if_match) o).1 ≡ done n t
      → IsUpdated c if_match t
          (serve_ready digest encode disk fault x (update ct raw body if_match) o).0
  unfolding serve_ready update_canonical
  serve_ready_update_done ct raw c if_match body n t none h known d = cc
  serve_ready_update_done ct raw c if_match body n t (some f) h known d =
      elim (Bool-cases (require_json ct)) [
        | inl e ↦ rw (e, known) (update_body_done f c if_match body n t h (rw (e, known) at d))
        | inr e ↦ absurd (ground arith)
      ]

  serve_update_done :
      (ct raw c if_match : Text) (body : Option MachineConfig) (n : ℕ) (t : Option Text)
      → canonical_mac raw ≡ some c
      → (serve digest encode disk fault x (update ct raw body if_match)).1 ≡ done n t
      → IsUpdated c if_match t (serve digest encode disk fault x (update ct raw body if_match)).0
  unfolding serve
  serve_update_done ct raw c if_match body n t known d = elim (Bool-cases (fleet_ready x.server)) [
    | inl e ↦
        rw e
          (serve_ready_update_done ct raw c if_match body n t x.server.fleet refl known (rw e at d))
    | inr e ↦ absurd (ground arith)
  ]

  -- What a successful deletion of a machine that was there leaves.
  record IsDeleted (c : Text) (y : Site) : Type 0 where
    old : Fleet
    new : Fleet
    had : x.server.fleet ≡ some old
    has : y.server.fleet ≡ some new
    machines :
        (j : Text) → lookup j new.machines ≡ (if text_eq c j then none else lookup j old.machines)
    pending :
        is_some (lookup c old.machines) ≡ true
        → y.server.pending ≡ cancel_pending x.server.pending c

  deleted_done :
      (c if_match : Text) (f : Fleet) (n : ℕ) (t : Option Text) (r : World × Result FleetError Bool)
      → x.server.fleet ≡ some f
      → canonical_mac c ≡ some c
      → delete_and_save digest encode disk fault (at_world f) c if_match ≡ r
      → (deleted x.server c r).1 ≡ done n t
      → IsDeleted c (deleted x.server c r).0
  unfolding deleted
  deleted_done c if_match f n t (w, err y) h own e d = cc
  deleted_done c if_match f n t (w, ok existed) h own e d =
      let (c', known, was, gone, saved) =
        delete_and_save_ok digest encode disk fault (at_world f) c if_match existed
          (ap (λ r. r.1) e) in
      let same : c' ≡ c = some-injective _ _ (sym known ∙ own) in
      record {
        old = f;
        new = w.fleet;
        had = h;
        has = refl;
        machines = λ j.
            ap (λ (r : World × Result FleetError Bool). lookup j r.0.fleet.machines) (sym e)
            ∙ gone j
            ∙ ap (λ k. if text_eq k j then none else lookup j f.machines) same;
        pending = λ there. rw (was ∙ ap (λ k. is_some (lookup k f.machines)) same ∙ there) refl;
      }

  serve_ready-delete_done :
      (raw c if_match : Text) (n : ℕ) (t : Option Text) (o : Option Fleet)
      → x.server.fleet ≡ o
      → canonical_mac raw ≡ some c
      → (serve_ready digest encode disk fault x (delete raw if_match) o).1 ≡ done n t
      → IsDeleted c (serve_ready digest encode disk fault x (delete raw if_match) o).0
  unfolding serve_ready delete_canonical
  serve_ready-delete_done raw c if_match n t none h known d = cc
  serve_ready-delete_done raw c if_match n t (some f) h known d = rw known (
      deleted_done c if_match f n t _ h (canonical_mac_idempotent raw c known) refl (rw known at d))

  serve-delete_done :
      (raw c if_match : Text) (n : ℕ) (t : Option Text)
      → canonical_mac raw ≡ some c
      → (serve digest encode disk fault x (delete raw if_match)).1 ≡ done n t
      → IsDeleted c (serve digest encode disk fault x (delete raw if_match)).0
  unfolding serve
  serve-delete_done raw c if_match n t known d = elim (Bool-cases (fleet_ready x.server)) [
    | inl e ↦
        rw e (serve_ready-delete_done raw c if_match n t x.server.fleet refl known (rw e at d))
    | inr e ↦ absurd (ground arith)
  ]

-- Where the store of intents is wired, a deletion that succeeds, of a machine that is in the fleet,
-- removes this machine from the fleet and what is pending for it, under every spelling of its
-- address, and keeps the profile of every other machine and what is pending for it.
pub delete_done :
    (digest : Text → Text) (encode : ConfigFile → Option Text) (disk : Disk) (fault : Fault)
    (x : Site) (f : Fleet) (p : Store) (now : ℕ) (raw c if_match other c' : Text) (n : ℕ)
    (t : Option Text)
    → x.server.fleet ≡ some f
    → x.server.pending ≡ some p
    → canonical_mac raw ≡ some c
    → canonical_mac other ≡ some c'
    → is_some (lookup c f.machines) ≡ true
    → (serve digest encode disk fault x (delete raw if_match)).1 ≡ done n t
    → (Option.map
          (λ (g : Fleet). lookup c' g.machines)
          (serve digest encode disk fault x (delete raw if_match)).0.server.fleet
        ≡ some (if text_eq c c' then none else lookup c' f.machines))
      × (Option.map
            (λ (q : Store). status q now other)
            (serve digest encode disk fault x (delete raw if_match)).0.server.pending
          ≡ some (if text_eq c c' then none else status p now other))
delete_done digest encode disk fault x f p now raw c if_match other c' n t had queued known known'
      there ok_ =
    let k = serve-delete_done digest encode disk fault x raw c if_match n t known ok_ in
    let same : k.old ≡ f = some-injective _ _ (sym k.had ∙ had) in
    let cancelled =
      k.pending (ap (λ (g : Fleet). is_some (lookup c g.machines)) same ∙ there)
      ∙ ap (λ o. cancel_pending o c) queued in
    let spelt : spells c c' ≡ text_eq c c' =
      spells-canonical c c' (canonical_mac_idempotent raw c known) in
    (
      ap (Option.map (λ (g : Fleet). lookup c' g.machines)) k.has
          ∙ ap some (
              k.machines c'
              ∙ ap (λ (g : Fleet). if text_eq c c' then none else lookup c' g.machines) same),
      ap (Option.map (λ (q : Store). status q now other)) cancelled
          ∙ ap some (
              status-cancel p now c other c' known'
              ∙ ap (λ b. if b then none else status p now other) spelt),
    )

-- When two updates of one machine that follow each other name the same entity tag and both succeed,
-- the tag that the first returned is the tag that it named: so where the first changed the tag, the
-- second fails.
pub second_update_done :
    (digest : Text → Text) (encode : ConfigFile → Option Text) (disk disk' : Disk)
    (fault fault' : Fault) (x : Site) (ct ct' raw raw' c if_match : Text)
    (body body' : Option MachineConfig) (n n' : ℕ) (t t' : Option Text)
    → canonical_mac raw ≡ some c
    → canonical_mac raw' ≡ some c
    → (serve digest encode disk fault x (update ct raw body if_match)).1 ≡ done n t
    → (serve digest encode disk' fault'
        (serve digest encode disk fault x (update ct raw body if_match)).0
        (update ct' raw' body' if_match)).1
      ≡ done n' t'
    → t ≡ some if_match
second_update_done digest encode disk disk' fault fault' x ct ct' raw raw' c if_match body body' n
      n' t t' known known' first second =
    let y = (serve digest encode disk fault x (update ct raw body if_match)).0 in
    let a = serve_update_done digest encode disk fault x ct raw c if_match body n t known first in
    let b =
      serve_update_done digest encode disk' fault' y ct' raw' c if_match body' n' t' known'
        second in
    let (d, known_c, valid, current, wrote, after) =
      update_and_save_ok digest encode disk fault _ _ if_match a.tag a.wrote in
    let (d', known_c', valid', current', wrote', after') =
      update_and_save_ok digest encode disk' fault' _ _ if_match b.tag b.wrote in
    let same = some-injective _ _ (sym b.had ∙ ap (λ (z : Site). z.server.fleet) a.left) in
    a.tagged ∙ sym after ∙ ap (λ (g : Fleet). etag digest g c) (sym same) ∙ current'
