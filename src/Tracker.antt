-- ===== src/Tracker.antt =====
-- The per-machine progress of internal/fleet/status.go. The tracker's pointer to the fleet is the
-- fleet at the time of the call, an argument.
pub mod Progress
pub mod Tests
use pxe_beacon.Base.{
  ℕ, zero, suc, ◌+◌, ◌*◌, Bool, true, false, not, ◌||◌, Option, none, some, List, [], ◌∷◌, ◌++◌,
  if◌then◌else◌, is_empty, is_some, ltb, leb, ◌==◌, ℤ, pos, negsuc, Text, text_eq, text_lt, Map,
  lookup, insert, sort_by,
}
use pxe_beacon.Mac.{canonical_mac}
use pxe_beacon.Fleet.{Profile, Fleet, lookup_machine}

-- `no_event` is the empty string.
pub data Event : Type 0 where
  no_event firmware_dhcp firmware_fetched ipxe_dhcp user_data_fetched installer_done
        installer_failed :
      Event

-- `rank`, with `eventOrder`
unfoldable pub rank : Event → ℕ
rank no_event = 0
rank firmware_dhcp = 1
rank firmware_fetched = 2
rank ipxe_dhcp = 3
rank user_data_fetched = 4
rank installer_done = 5
rank installer_failed = 0

unfoldable pub is_failed : Event → Bool
is_failed installer_failed = true
is_failed ev = false

unfoldable pub event_code : Event → ℕ
unfolding rank
event_code installer_failed = 6
event_code ev = rank ev

abbrev pub event_eq : Event → Event → Bool
event_eq a b = event_code a == event_code b

-- `last_seen` is absent for the zero time.
pub record Status : Type 0 where
  pub mac : Text
  pub name : Text
  pub profile : Text
  pub state : Event
  pub last_seen : Option ℕ
  pub stalled : Bool
  pub events : List Event

pub record Tracker : Type 0 where
  pub machines : Map Status
  pub stalled_after : ℕ

unfoldable pub stall_time : ℤ → ℕ
stall_time (pos zero) = 5 * 60 * 1000000000
stall_time (pos (suc d)) = suc d
stall_time (negsuc d) = 5 * 60 * 1000000000

-- `NewTracker`
unfoldable pub new_tracker : ℤ → Tracker
new_tracker stalled_after = record { machines = []; stalled_after = stall_time stalled_after }

unfoldable pub fresh_status : Text → Status
fresh_status canon = record {
  mac = canon;
  name = [];
  profile = [];
  state = no_event;
  last_seen = none;
  stalled = false;
  events = [];
}

unfoldable pub status_or_fresh : Text → Option Status → Status
status_or_fresh canon none = fresh_status canon
status_or_fresh canon (some s) = s

-- The name and the target are read from the fleet again at each event.
unfoldable pub renamed : Option Fleet → Text → Status → Status
renamed none canon s = s
renamed (some f) canon s = record s {
  name = (lookup_machine f canon).name;
  profile = (lookup_machine f canon).boot;
}

unfoldable pub advanced : Event → Event → Event
unfolding rank is_failed
advanced state ev = if is_failed ev || leb (rank state) (rank ev) then ev else state

-- The history, unless the event repeats its end.
unfoldable pub with_event : List Event → Event → List Event
with_event [] ev = ev ∷ []
with_event (e ∷ []) ev = if event_eq e ev then e ∷ [] else e ∷ ev ∷ []
with_event (e ∷ f ∷ es) ev = e ∷ with_event (f ∷ es) ev

unfoldable pub noted : Event → ℕ → Status → Status
noted ev now s = record s {
  state = advanced s.state ev;
  events = with_event s.events ev;
  last_seen = some now;
}

unfoldable pub note_entry : Tracker → Option Fleet → ℕ → Event → Option Text → Tracker
note_entry t fleet now ev none = t
note_entry t fleet now ev (some canon) = record t {
  machines =
      insert canon
        (noted ev now (renamed fleet canon (status_or_fresh canon (lookup canon t.machines))))
        t.machines;
}

-- `Note`
unfoldable pub note : Tracker → Option Fleet → ℕ → Text → Event → Tracker
note t fleet now mac ev = note_entry t fleet now ev (canonical_mac mac)

unfoldable pub state_of : Option Status → Event
state_of none = no_event
state_of (some s) = s.state

unfoldable pub event_at : Tracker → Option Text → Event
event_at t none = no_event
event_at t (some canon) = state_of (lookup canon t.machines)

-- `LastEvent`
unfoldable pub last_event : Tracker → Text → Event
last_event t mac = event_at t (canonical_mac mac)

unfoldable pub before_cutoff : ℕ → ℕ → Option ℕ → Bool
before_cutoff now age none = false
before_cutoff now age (some seen) = ltb (seen + age) now

-- `isStalled`; the cutoff is `now` less the age.
unfoldable pub is_stalled : ℕ → ℕ → Status → Bool
unfolding before_cutoff
is_stalled now age s =
    if event_eq s.state no_event
      || event_eq s.state installer_done
      || event_eq s.state installer_failed
    then false
    else before_cutoff now age s.last_seen

unfoldable pub configured_row : Tracker → ℕ → Text × Profile → Option Status → Status
configured_row t now (canon, p) none = record (fresh_status canon) {
  name = p.name;
  profile = p.boot;
}
configured_row t now (canon, p) (some s) = record s {
  profile = p.boot;
  name = p.name;
  stalled = is_stalled now t.stalled_after s;
}

unfoldable pub configured_rows : Tracker → ℕ → Map Profile → List Status
configured_rows t now [] = []
configured_rows t now ((canon, p) ∷ m) =
    configured_row t now (canon, p) (lookup canon t.machines) ∷ configured_rows t now m

unfoldable pub observed_rows : Tracker → ℕ → Map Profile → Map Status → List Status
observed_rows t now known [] = []
observed_rows t now known ((canon, s) ∷ m) =
    let rest = observed_rows t now known m in
    if is_some (lookup canon known)
    then rest
    else record s { stalled = is_stalled now t.stalled_after s } ∷ rest

unfoldable pub same : Bool → Bool → Bool
same true b = b
same false b = not b

unfoldable pub row_less : Status → Status → Bool
row_less a b =
    if same (is_empty a.name) (is_empty b.name)
    then (if text_eq a.name b.name then text_lt a.mac b.mac else text_lt a.name b.name)
    else not (is_empty a.name)

unfoldable pub known_machines : Option Fleet → Map Profile
known_machines none = []
known_machines (some f) = f.machines

-- `Snapshot`
unfoldable pub snapshot : Tracker → Option Fleet → ℕ → List Status
snapshot t fleet now = sort_by row_less (
    configured_rows t now (known_machines fleet)
    ++ observed_rows t now (known_machines fleet) t.machines)
