-- ===== src/Httpd/Paging.antt =====
-- internal/httpd/api.go: the paged lists of machines and of unknown machines, the views that they
-- show, and the readiness probe.
use pxe_beacon.Base.{
  parse_int, ℕ, ◌+◌, ◌-◌, ltb, ◌==◌, Bool, true, ◌||◌, Option, none, some, List, [], ◌∷◌, map,
  length, take, drop, if◌then◌else◌, is_empty, is_some, ℤ, pos, Text, text_eq,
}
use pxe_beacon.Mac.{canonical_mac}
use pxe_beacon.Pending as Pending
use pxe_beacon.Sightings as Sightings
use pxe_beacon.Fleet.{Fleet, Machine, lookup_machine}
use pxe_beacon.Fleet.Saving.{list_machines}
use pxe_beacon.Tracker.{Event, Tracker, Status, snapshot}
use pxe_beacon.Httpd.{Server, ErrorCode, fleet_not_loaded, mac_invalid, paging_invalid, fleet_ready}

abbrev pub default_page_limit : ℕ
default_page_limit = 500

-- `Desired`, `Observed` and `Machine` of the interface.
pub record MachineView : Type 0 where
  pub mac : Text
  pub name : Text
  pub boot : Text
  pub desired : Option Pending.Status
  pub observed : Option (Event × Option ℕ)

unfoldable pub build_desired : Option Pending.Store → ℕ → Text → Option Pending.Status
build_desired none now canon = none
build_desired (some p) now canon = Pending.status p now canon

-- The first row with the address.
unfoldable pub observed_row : Text → List Status → Option (Event × Option ℕ)
observed_row canon [] = none
observed_row canon (st ∷ rows) =
    if text_eq st.mac canon then some (st.state, st.last_seen) else observed_row canon rows

unfoldable pub build_observed : Server → ℕ → Text → Option (Event × Option ℕ)
unfolding observed_row
build_observed s now canon = elim s.tracker [
  | none ↦ none
  | some t ↦ observed_row canon (snapshot t s.fleet now)
]

unfoldable pub build_machine_view : Server → ℕ → Machine → MachineView
unfolding build_desired build_observed
build_machine_view s now m = record {
  mac = m.mac;
  name = m.profile.name;
  boot = m.profile.boot;
  desired = build_desired s.pending now m.mac;
  observed = build_observed s now m.mac;
}

-- A number that is not negative.
abbrev natural : Option ℤ → Option ℕ
natural (some (pos n)) = some n
natural _ = none

abbrev within_limit : ℕ → ℕ
within_limit n = if n == 0 || ltb default_page_limit n then default_page_limit else n

unfoldable pub parse_limit : Text → Option ℕ
unfolding parse_int
parse_limit v =
    if is_empty v
    then some default_page_limit
    else elim (natural (parse_int v)) [ none ↦ none | some n ↦ some (within_limit n) ]

unfoldable pub parse_offset : Text → Option ℕ
unfolding parse_int
parse_offset v = if is_empty v then some 0 else natural (parse_int v)

-- `parsePaging`
unfoldable pub parse_paging : Text → Text → Option (ℕ × ℕ)
unfolding parse_limit parse_offset
parse_paging limit offset = elim (parse_limit limit) [
  | none ↦ none
  | some l ↦ elim (parse_offset offset) [ none ↦ none | some o ↦ some (l, o) ]
]

module _ {ℓ} {A : Type ℓ} where
  -- `xs[lo:hi]`
  unfoldable pub slice : List A → ℕ → ℕ → List A
  slice xs lo hi = take (hi - lo) (drop lo xs)

  -- The window, clamped to the bounds of the list.
  unfoldable pub window : ℕ → ℕ → List A → List A
  unfolding slice
  window limit offset xs =
      let total = length xs in
      let lo = if ltb total offset then total else offset in
      let hi = if ltb total (lo + limit) then total else lo + limit in slice xs lo hi

-- A list response, or an error.
pub data Listing (A : Type 0) : Type 0 where
  listing : (total limit offset : ℕ) → List A → Listing A
  refused : ℕ → ErrorCode → Listing A

abbrev pub page_of : {A B : Type 0} → (A → B) → List A → Option (ℕ × ℕ) → Listing B
page_of view xs none = refused 400 paging_invalid
page_of view xs (some (limit, offset)) =
    listing (length xs) limit offset (map view (window limit offset xs))

abbrev pub of_fleet : Option Fleet → List Machine
of_fleet none = []
of_fleet (some f) = list_machines f

-- `handleAPIList`. A view is made for each machine of the page.
unfoldable pub api_list : Server → ℕ → Text → Text → Listing MachineView
unfolding window parse_paging build_machine_view
api_list s now limit offset =
    if fleet_ready s
    then page_of (build_machine_view s now) (of_fleet s.fleet) (parse_paging limit offset)
    else refused 503 fleet_not_loaded

abbrev nameless : Option Fleet → Text → Bool
nameless none mac = true
nameless (some f) mac = is_empty (lookup_machine f mac).name

-- The sightings of machines that are not in the fleet.
unfoldable pub strangers : Option Fleet → List Sightings.Sighting → List Sightings.Sighting
strangers f [] = []
strangers f (sg ∷ all) = let rest = strangers f all in if nameless f sg.mac then sg ∷ rest else rest

-- `handleAPIDiscovered`
unfoldable pub discovered :
    Option Fleet → Option Sightings.Store → Text → Text → Listing Sightings.Sighting
unfolding strangers window parse_paging
discovered f none limit offset = refused 503 fleet_not_loaded
discovered f (some s) limit offset =
    page_of (λ sg. sg) (strangers f (Sightings.list s)) (parse_paging limit offset)

unfoldable pub dismiss_canonical :
    Sightings.Store → Option Text → Sightings.Store × Option ErrorCode
dismiss_canonical s none = (s, some mac_invalid)
dismiss_canonical s (some mac) = ((Sightings.forget s mac).0, none)

-- `handleAPIDismissDiscovered`
unfoldable pub dismiss : Option Sightings.Store → Text → Option Sightings.Store × Option ErrorCode
unfolding dismiss_canonical
dismiss none raw = (none, some fleet_not_loaded)
dismiss (some s) raw =
    let (left, error) = dismiss_canonical s (canonical_mac raw) in (some left, error)

-- The state of each part, and when all are wired the number of pending intents and of rows.
pub record Readiness : Type 0 where
  pub status : ℕ
  pub fleet : Bool
  pub tracker : Bool
  pub pending : Bool
  pub counts : Option (ℕ × ℕ)

unfoldable pub ready_counts :
    ℕ → Option Fleet → Option Tracker → Option Pending.Store → Option (ℕ × ℕ)
ready_counts now (some f) (some t) (some p) =
    some (Pending.size p, length (snapshot t (some f) now))
ready_counts now _ _ _ = none

-- `handleReadyz`
unfoldable pub readyz : Server → ℕ → Readiness
unfolding ready_counts
readyz s now =
    let counts = ready_counts now s.fleet s.tracker s.pending in
    record {
      status = if is_some counts then 200 else 503;
      fleet = is_some s.fleet;
      tracker = is_some s.tracker;
      pending = is_some s.pending;
      counts = counts;
    }
