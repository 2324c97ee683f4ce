-- ===== src/Reload/Pruned.antt =====
-- What the stores hold of a machine after a reload, and how the two ways to reload differ.
use pxe_beacon.Base.{
  ℕ, ◌≡◌, ◌⊎◌, refl, Bool, true, not, Option, none, some, [], arith, if◌then◌else◌, is_some,
  is_empty, inl, inr, Bool-cases, Text, lookup, Result, ok, err,
}
use pxe_beacon.Mac.{canonical_mac}
use pxe_beacon.Pending as Pending
use pxe_beacon.Pending.Retention.{status-retain_only}
use pxe_beacon.InstallLog as InstallLog
use pxe_beacon.InstallLog.Retained.{get-retain_only}
use pxe_beacon.Sightings as Sightings
use pxe_beacon.Sightings.Eviction.{lookup-retain_only}
use pxe_beacon.Fleet.{Fleet, FleetError, ConfigFile, Disk}
use pxe_beacon.Fleet.Loading.{load, replaced, reload}
use pxe_beacon.Reload.{
  System, is_known, prune_pending, prune_logs, prune_sightings, sighup_after, AdminReload, reloaded,
  reload_failed, admin_after, on_sighup, admin_reload,
}

-- What the stores hold of a machine.
unfoldable pub pending_status : Option Pending.Store → ℕ → Text → Option Pending.Status
pending_status none now mac = none
pending_status (some p) now mac = Pending.status p now mac

unfoldable pub log_text : Option InstallLog.Store → Text → Text
log_text none mac = []
log_text (some l) mac = InstallLog.get l mac

unfoldable pub sighting : Option Sightings.Store → Text → Option Sightings.Entry
sighting none c = none
sighting (some v) c = lookup c v.entries

module _ (known : Text → Bool) (mac c : Text) (named : canonical_mac mac ≡ some c) where
  status-prune :
      (now : ℕ) (p : Option Pending.Store)
      → pending_status (prune_pending known p) now mac
        ≡ (if known c then pending_status p now mac else none)
  unfolding pending_status prune_pending
  status-prune now none = ground arith
  status-prune now (some p) = status-retain_only p known now mac c named

  log-prune :
      (l : Option InstallLog.Store)
      → log_text (prune_logs known l) mac ≡ (if known c then log_text l mac else [])
  unfolding log_text prune_logs
  log-prune none = ground arith
  log-prune (some l) = get-retain_only l known mac c named

sighting-prune :
    (known : Text → Bool) (c : Text) (v : Option Sightings.Store)
    → sighting (prune_sightings known v) c ≡ (if known c then none else sighting v c)
unfolding sighting prune_sightings
sighting-prune known c none = ground arith
sighting-prune known c (some v) =
    rw (lookup-retain_only v (λ mac. not (known mac)) c) (ground arith)

-- What a machine with the canonical address `c` has in each store after a reload that leaves `f`
-- and the error `e`.
pub record Kept (now : ℕ) (mac c : Text) (f : Fleet) (e : Option FleetError) (s s' : System)
    : Type 0 where
  pub fleet : s'.fleet ≡ (if is_some e then s.fleet else f)
  pub tracker : s'.tracker ≡ s.tracker
  pub status : pending_status s'.pending now mac ≡ (
      if is_some e
      then pending_status s.pending now mac
      else if is_known f c
      then pending_status s.pending now mac
      else none)
  pub log : log_text s'.logs mac ≡ (
      if is_some e then log_text s.logs mac else if is_known f c then log_text s.logs mac else [])
  pub sighted : sighting s'.sightings c ≡ (
      if is_some e
      then sighting s.sightings c
      else if is_known f c
      then none
      else sighting s.sightings c)

sighup_after-Kept :
    (s : System) (r : Fleet × Option FleetError) (now : ℕ) (mac c : Text)
    → canonical_mac mac ≡ some c
    → (r.0 ≡ s.fleet) ⊎ (r.1 ≡ none)
    → Kept now mac c r.0 r.1 s (sighup_after s r).0
unfolding sighup_after
sighup_after-Kept s (f, some e) now mac c named (inr h) = cc
sighup_after-Kept s (f, some e) now mac c named (inl h) = record {
  fleet = h;
  tracker = refl;
  status = refl;
  log = refl;
  sighted = refl;
}
sighup_after-Kept s (f, none) now mac c named h = record {
  fleet = refl;
  tracker = refl;
  status = status-prune (is_known f) mac c named now s.pending;
  log = log-prune (is_known f) mac c named s.logs;
  sighted = sighting-prune (is_known f) c s.sightings;
}

replaced_fleet :
    (f : Fleet) (r : Result FleetError Fleet) → ((replaced f r).0 ≡ f) ⊎ ((replaced f r).1 ≡ none)
replaced_fleet f (ok g) = inr refl
replaced_fleet f (err e) = inl refl

module _ (decode : Text → Option ConfigFile) (dir_of : Text → Text) (disk : Disk) (s : System) where
  reload_fleet :
      ((reload decode dir_of disk s.fleet).0 ≡ s.fleet)
      ⊎ ((reload decode dir_of disk s.fleet).1 ≡ none)
  unfolding reload
  reload_fleet = elim (Bool-cases (is_empty s.fleet.path)) [
    | inl e ↦ rw e (inl refl)
    | inr e ↦ rw e (replaced_fleet s.fleet (load decode dir_of disk s.fleet))
  ]

  -- For an address in canonical form or in another spelling: a SIGHUP whose reload succeeds leaves
  -- the fleet of the file. A machine of that fleet keeps its pending intent and its installation
  -- log and is no longer among the sightings; any other machine keeps its sighting and has no
  -- intent and no log. A SIGHUP whose reload fails leaves all of these as they were.
  pub on_sighup-Kept :
      (now : ℕ) (mac c : Text)
      → canonical_mac mac ≡ some c
      → Kept now mac c
          (reload decode dir_of disk s.fleet).0
          (reload decode dir_of disk s.fleet).1
          s
          (on_sighup decode dir_of disk s).0
  unfolding on_sighup
  on_sighup-Kept now mac c named =
      sighup_after-Kept s (reload decode dir_of disk s.fleet) now mac c named reload_fleet

abbrev pub reply_for : Option FleetError → AdminReload
reply_for none = reloaded
reply_for (some e) = reload_failed e

admin_after-sighup_after :
    (s : System) (r : Fleet × Option FleetError)
    → admin_after s r ≡ (
      record (sighup_after s r).0 { logs = s.logs; sightings = s.sightings },
      reply_for (sighup_after s r).1,
    )
unfolding admin_after sighup_after
admin_after-sighup_after s (f, some e) = refl
admin_after-sighup_after s (f, none) = refl

-- Where the tracker is wired, a reload by the administration page leaves the fleet, the tracker and
-- the pending intents that a SIGHUP leaves, and reports its error; the installation logs and the
-- sightings stay as they were, also those that a SIGHUP drops.
pub admin_reload-on_sighup :
    (decode : Text → Option ConfigFile) (dir_of : Text → Text) (disk : Disk) (s : System)
    → is_some s.tracker ≡ true
    → admin_reload decode dir_of disk s ≡ (
      record (on_sighup decode dir_of disk s).0 { logs = s.logs; sightings = s.sightings },
      reply_for (on_sighup decode dir_of disk s).1,
    )
unfolding admin_reload on_sighup
admin_reload-on_sighup decode dir_of disk s wired =
    rw wired (admin_after-sighup_after s (reload decode dir_of disk s.fleet))
