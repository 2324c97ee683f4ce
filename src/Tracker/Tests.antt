-- ===== src/Tracker/Tests.antt =====
-- Runs of the tracker, and the theorem at a concrete input.
use pxe_beacon.Base.{
  ◌≡◌, refl, none, some, List, [], ◌∷◌, true, Text, bytes, pos, lookup, insert, sort_by, map,
}
use pxe_beacon.Mac.{canonical_mac, mac_code}
use pxe_beacon.Mac.Canonical.{names, spells}
use pxe_beacon.Tracker.{
  Event, firmware_dhcp, ipxe_dhcp, user_data_fetched, Status, new_tracker, stall_time, note,
  note_entry, noted, renamed, status_or_fresh, fresh_status, advanced, with_event, rank, is_failed,
  last_event, event_at, state_of, snapshot, configured_rows, observed_rows, known_machines,
  row_less, same, is_stalled, before_cutoff, event_code,
}
use pxe_beacon.Tracker.Progress.{Report, note_all, events_for, IsFurthest, last_event-IsFurthest}

tracker_code : Unit {0}
unfolding mac_code names spells lookup insert sort_by new_tracker stall_time note note_entry noted
    renamed status_or_fresh fresh_status advanced with_event rank is_failed last_event event_at
    state_of snapshot configured_rows observed_rows known_machines row_less same is_stalled
    before_cutoff event_code note_all events_for
tracker_code = tt

abbrev node : Text
node = bytes "52:54:00:00:00:01"

abbrev report : Event → Text → Report
report ev mac = record { fleet = none; now = 5; mac = mac; event = ev }

-- The events arrive out of order and under two spellings.
abbrev reports : List Report
reports =
    report firmware_dhcp node
    ∷ report user_data_fetched (bytes "525400000001")
    ∷ report ipxe_dhcp node
    ∷ []

node_known : canonical_mac node ≡ some node
unfolding mac_code
node_known = refl

ends_fetched : last_event (note_all (new_tracker (pos 9)) reports) node ≡ user_data_fetched
unfolding tracker_code
ends_fetched = refl

last_event-IsFurthest_example :
    IsFurthest
      (last_event (new_tracker (pos 9)) node)
      (events_for node reports)
      (last_event (note_all (new_tracker (pos 9)) reports) node)
unfolding tracker_code
last_event-IsFurthest_example =
    last_event-IsFurthest (new_tracker (pos 9)) reports node node node_known
      (refl, (refl, (refl, tt)))

-- At an age of nine, a machine seen at 5 is stalled at 15.
stalls_late :
    map (λ (s : Status). s.stalled) (snapshot (note_all (new_tracker (pos 9)) reports) none 15)
    ≡ true ∷ []
unfolding tracker_code
stalls_late = refl
