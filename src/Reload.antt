-- ===== src/Reload.antt =====
-- A reload of the fleet with what is kept in memory beside it: watchSIGHUP of
-- cmd/pxe-beacon/main.go and handleAdminReload of internal/httpd/admin.go. The lines that are
-- logged are left out.
pub mod Pruned
pub mod Sound
pub mod Tests
use pxe_beacon.Base.{
  Bool, true, false, not, Option, none, some, List, [], ◌∷◌, if◌then◌else◌, is_some, Text, lookup,
}
use pxe_beacon.Pending as Pending
use pxe_beacon.InstallLog as InstallLog
use pxe_beacon.Sightings as Sightings
use pxe_beacon.Fleet.{Fleet, FleetError, ConfigFile, Disk}
use pxe_beacon.Fleet.Loading.{reload}
use pxe_beacon.Tracker.{Tracker}
use pxe_beacon.Httpd.{Server, fleet_ready}

-- What the program keeps in memory, as main wires it; the parts that may be nil are absent.
pub record System : Type 0 where
  pub fleet : Fleet
  pub tracker : Option Tracker
  pub pending : Option Pending.Store
  pub logs : Option InstallLog.Store
  pub sightings : Option Sightings.Store

-- The server of the HTTP requests.
abbrev pub server_of : System → Server
server_of s = record { fleet = some s.fleet; tracker = s.tracker; pending = s.pending }

-- `known`, a test of the copy of the machines
unfoldable pub is_known : Fleet → Text → Bool
is_known f mac = is_some (lookup mac f.machines)

unfoldable pub prune_pending : (Text → Bool) → Option Pending.Store → Option Pending.Store
prune_pending known none = none
prune_pending known (some p) = some (Pending.retain_only p known).0

unfoldable pub prune_logs : (Text → Bool) → Option InstallLog.Store → Option InstallLog.Store
prune_logs known none = none
prune_logs known (some l) = some (InstallLog.retain_only l known).0

unfoldable pub prune_sightings : (Text → Bool) → Option Sightings.Store → Option Sightings.Store
prune_sightings known none = none
prune_sightings known (some v) = some (Sightings.retain_only v (λ mac. not (known mac))).0

unfoldable pub sighup_after : System → Fleet × Option FleetError → System × Option FleetError
unfolding is_known prune_pending prune_logs prune_sightings
sighup_after s (f, some e) = (record s { fleet = f }, some e)
sighup_after s (f, none) = (
  record s {
    fleet = f;
    pending = prune_pending (is_known f) s.pending;
    logs = prune_logs (is_known f) s.logs;
    sightings = prune_sightings (is_known f) s.sightings;
  },
  none,
)

pub data AdminReload : Type 0 where
  not_ready reloaded : AdminReload
  reload_failed : FleetError → AdminReload

unfoldable pub admin_after : System → Fleet × Option FleetError → System × AdminReload
unfolding is_known prune_pending
admin_after s (f, some e) = (record s { fleet = f }, reload_failed e)
admin_after s (f, none) =
    (record s { fleet = f; pending = prune_pending (is_known f) s.pending }, reloaded)

-- `decode` parses YAML, and `dir_of` is the absolute directory of a file.
module _ (decode : Text → Option ConfigFile) (dir_of : Text → Text) where
  -- One signal.
  unfoldable pub on_sighup : Disk → System → System × Option FleetError
  unfolding sighup_after
  on_sighup disk s = sighup_after s (reload decode dir_of disk s.fleet)

  -- The loop over the signals, each with the disk as it is then.
  unfoldable pub watch_sighup : List Disk → System → System
  watch_sighup [] s = s
  watch_sighup (disk ∷ disks) s = watch_sighup disks (on_sighup disk s).0

  -- `handleAdminReload`
  unfoldable pub admin_reload : Disk → System → System × AdminReload
  unfolding admin_after
  admin_reload disk s =
      if fleet_ready (server_of s)
      then admin_after s (reload decode dir_of disk s.fleet)
      else (s, not_ready)
