-- ===== src/Reload/Sound.antt =====
-- The invariants of the stores through the signals of watchSIGHUP.
use pxe_beacon.Base.{Bool, Option, none, some, List, [], ◌∷◌, not, Text}
use pxe_beacon.Pending as Pending
use pxe_beacon.Pending.History as History
use pxe_beacon.Sightings as Sightings
use pxe_beacon.Sightings.Eviction as Eviction
use pxe_beacon.Sightings.Eviction.{IsBounded}
use pxe_beacon.Fleet.{Fleet, FleetError, ConfigFile, Disk}
use pxe_beacon.Fleet.Loading.{reload}
use pxe_beacon.Fleet.Loaded.{Each, IsValid, reload-IsValid}
use pxe_beacon.Reload.{
  System, is_known, prune_pending, prune_sightings, sighup_after, on_sighup, watch_sighup,
}

-- Every store has distinct canonical keys, and the sightings are bounded.
pub record IsSound (s : System) : Type 0 where
  pub fleet : IsValid s.fleet
  pub pending : Each History.IsValid s.pending
  pub sightings : Each IsBounded s.sightings

pending-prune :
    (known : Text → Bool) (p : Option Pending.Store)
    → Each History.IsValid p
    → Each History.IsValid (prune_pending known p)
unfolding prune_pending
pending-prune known none v = tt
pending-prune known (some p) v =
    unfold History.run History.step in History.run-IsValid p (History.reloaded known ∷ []) v

sightings-prune :
    (known : Text → Bool) (v : Option Sightings.Store)
    → Each IsBounded v
    → Each IsBounded (prune_sightings known v)
unfolding prune_sightings
sightings-prune known none b = tt
sightings-prune known (some v) b =
    unfold Eviction.run Eviction.step in
    Eviction.run-IsBounded v (Eviction.retained (λ mac. not (known mac)) ∷ []) b

sighup_after-IsSound :
    (s : System) (r : Fleet × Option FleetError)
    → IsSound s
    → IsValid r.0
    → IsSound (sighup_after s r).0
unfolding sighup_after
sighup_after-IsSound s (f, some e) h v = record {
  fleet = v;
  pending = h.pending;
  sightings = h.sightings;
}
sighup_after-IsSound s (f, none) h v = record {
  fleet = v;
  pending = pending-prune (is_known f) s.pending h.pending;
  sightings = sightings-prune (is_known f) s.sightings h.sightings;
}

-- Whatever the file holds at each of the signals, the fleet, the pending intents and the sightings
-- keep distinct canonical addresses, and the sightings their bound.
pub watch_sighup-IsSound :
    (decode : Text → Option ConfigFile) (dir_of : Text → Text) (disks : List Disk) (s : System)
    → IsSound s
    → IsSound (watch_sighup decode dir_of disks s)
unfolding watch_sighup on_sighup
watch_sighup-IsSound decode dir_of [] s h = h
watch_sighup-IsSound decode dir_of (disk ∷ disks) s h = watch_sighup-IsSound decode dir_of disks _ (
    sighup_after-IsSound s (reload decode dir_of disk s.fleet) h
      (reload-IsValid decode dir_of disk s.fleet h.fleet).0)
