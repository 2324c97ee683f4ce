-- ===== src/Sightings/Tests.antt =====
-- Runs of the sightings store, and the theorems at concrete inputs.
use pxe_beacon.Base.{
  ℕ, zero, suc, ◌/◌, ◌%◌, ◌≤◌, ◌≡◌, refl, List, [], ◌∷◌, none, some, arith, All, Text, bytes,
  length, lookup, insert, delete, text_eq, to_lower, replace_byte,
}
use pxe_beacon.Mac.{canonical_mac, mac_string, mac_code}
use pxe_beacon.Mac.Canonical.{names, spells}
use pxe_beacon.InstallLog.{or_nil}
use pxe_beacon.Sightings.{
  max_entries, Entry, Store, empty, note, note_entry, note_known, seen_again, first_sighting, room,
  evict_oldest, oldest_from,
}
use pxe_beacon.Sightings.Vendors.{vendor_for_mac, oui_vendors}
use pxe_beacon.Sightings.Eviction.{
  IsBounded, Call, noted, run, step, run-IsBounded, note_full, after_eviction,
}
use pxe_beacon.Sightings.Counting.{Discover, note_all, times, count_of}

sightings_code : Unit {0}
unfolding mac_code names spells lookup insert delete empty note note_entry note_known seen_again
    first_sighting room evict_oldest oldest_from run step note_all times count_of
sightings_code = tt

-- `n` machines, the first seen at the time n.
fill : ℕ → List Call
fill zero = []
fill (suc n) =
    noted (suc n) (mac_string (2 ∷ 0 ∷ 0 ∷ 0 ∷ n / 256 ∷ n % 256 ∷ [])) (bytes "") (bytes "")
    ∷ fill n

abbrev full : Store
full = run empty (fill max_entries)

empty-IsBounded : IsBounded empty
unfolding empty
empty-IsBounded = record { unique = tt; canonical = tt; bounded = omega arith }

run-IsBounded_example : IsBounded full
run-IsBounded_example = run-IsBounded empty (fill max_entries) empty-IsBounded

full_length : length full.entries ≡ 256
unfolding sightings_code fill
full_length = refl

abbrev newcomer : Text
newcomer = bytes "52:54:00:00:00:01"

newcomer_known : canonical_mac newcomer ≡ some newcomer
unfolding mac_code
newcomer_known = refl

newcomer_absent : lookup newcomer full.entries ≡ none
unfolding sightings_code fill
newcomer_absent = refl

note_full_example :
    (old : Text) × (e : Entry) × (lookup old full.entries ≡ some e)
    × All (λ (x : Text × Entry). e.last_seen ≤ x.1.last_seen) full.entries
    × ((j : Text)
        → lookup j (note full 300 newcomer (bytes "x86 BIOS") (bytes "PXEClient")).entries
          ≡ after_eviction newcomer old
              (first_sighting 300 (bytes "x86 BIOS") (bytes "PXEClient"))
              full.entries
              j)
note_full_example =
    note_full full 300 newcomer newcomer (bytes "x86 BIOS") (bytes "PXEClient")
      run-IsBounded_example newcomer_known newcomer_absent full_length

abbrev discovers : List Discover
discovers =
    record { now = 5; mac = newcomer; arch = bytes ""; vendor_class = bytes "PXEClient" }
    ∷ record { now = 9; mac = bytes "525400000001"; arch = bytes ""; vendor_class = bytes "" }
    ∷ []

seen_twice : times newcomer discovers ≡ 2
unfolding sightings_code
seen_twice = refl

vendor : vendor_for_mac (bytes "52-54-00-12-34-56") ≡ bytes "QEMU/KVM"
unfolding vendor_for_mac oui_vendors or_nil lookup text_eq to_lower replace_byte
vendor = refl
