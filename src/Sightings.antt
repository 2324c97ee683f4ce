-- ===== src/Sightings.antt =====
-- The store of unknown machines that were seen booting, internal/sightings/sightings.go.
pub mod Oldest
pub mod Eviction
pub mod Counting
pub mod Vendors
pub mod Tests
use pxe_beacon.Base.{
  ℕ, ◌+◌, Bool, true, false, ◌||◌, Option, none, some, List, [], ◌∷◌, ltb, leb, if◌then◌else◌,
  is_some, is_empty, length, map, Text, Map, lookup, insert, delete, sort_by,
}
use pxe_beacon.Mac.{canonical_mac}
use pxe_beacon.Sightings.Vendors.{vendor_for_mac}

abbrev pub max_entries : ℕ
max_entries = 256

pub record Entry : Type 0 where
  pub arch : Text
  pub vendor_class : Text
  pub first_seen : ℕ
  pub last_seen : ℕ
  pub count : ℕ

pub record Sighting : Type 0 where
  pub mac : Text
  pub arch : Text
  pub vendor : Text
  pub vendor_class : Text
  pub first_seen : ℕ
  pub last_seen : ℕ
  pub count : ℕ

pub record Store : Type 0 where
  pub entries : Map Entry

unfoldable pub empty : Store
empty = record { entries = [] }

-- The loop of `evictOldestLocked`: the key with the oldest `last_seen` so far and that time, ""
-- before any.
unfoldable pub oldest_from : Text → ℕ → Map Entry → Text × ℕ
oldest_from mac at [] = (mac, at)
oldest_from mac at ((k, e) ∷ m) =
    let older = is_empty mac || ltb e.last_seen at in
    oldest_from (if older then k else mac) (if older then e.last_seen else at) m

unfoldable pub evict_oldest : Map Entry → Map Entry
evict_oldest m =
    let oldest = (oldest_from [] 0 m).0 in if is_empty oldest then m else delete oldest m

-- The map into which a new entry is written.
unfoldable pub room : Map Entry → Map Entry
room m = if leb max_entries (length m) then evict_oldest m else m

abbrev pub freshest : Text → Text → Text
freshest new old = if is_empty new then old else new

unfoldable pub seen_again : Entry → ℕ → Text → Text → Entry
seen_again e now arch vendor_class = record e {
  last_seen = now;
  count = e.count + 1;
  arch = freshest arch e.arch;
  vendor_class = freshest vendor_class e.vendor_class;
}

unfoldable pub first_sighting : ℕ → Text → Text → Entry
first_sighting now arch vendor_class = record {
  arch = arch;
  vendor_class = vendor_class;
  first_seen = now;
  last_seen = now;
  count = 1;
}

-- `Note` behind the canonical address and the lookup.
unfoldable pub note_known : Map Entry → ℕ → Text → Text → Text → Option Entry → Map Entry
note_known m now canon arch vendor_class (some e) =
    insert canon (seen_again e now arch vendor_class) m
note_known m now canon arch vendor_class none =
    insert canon (first_sighting now arch vendor_class) (room m)

unfoldable pub note_entry : Store → ℕ → Text → Text → Option Text → Store
note_entry s now arch vendor_class none = s
note_entry s now arch vendor_class (some canon) = record {
  entries = note_known s.entries now canon arch vendor_class (lookup canon s.entries);
}

unfoldable pub note : Store → ℕ → Text → Text → Text → Store
note s now mac arch vendor_class = note_entry s now arch vendor_class (canonical_mac mac)

view : Text × Entry → Sighting
view (mac, e) = record {
  mac = mac;
  arch = e.arch;
  vendor = vendor_for_mac mac;
  vendor_class = e.vendor_class;
  first_seen = e.first_seen;
  last_seen = e.last_seen;
  count = e.count;
}

-- Newest `last_seen` first. Go's sort leaves the order of equal times open; here it is stable.
unfoldable pub list : Store → List Sighting
unfolding view
list s = sort_by (λ a b. ltb b.last_seen a.last_seen) (map view s.entries)

forget_entry : Store → Option Text → Store × Bool
forget_entry s none = (s, false)
forget_entry s (some canon) =
    (record { entries = delete canon s.entries }, is_some (lookup canon s.entries))

unfoldable pub forget : Store → Text → Store × Bool
unfolding forget_entry
forget s mac = forget_entry s (canonical_mac mac)

sweep : (Text → Bool) → Map Entry → Map Entry × ℕ
sweep keep [] = ([], 0)
sweep keep ((mac, e) ∷ m) =
    let (kept, removed) = sweep keep m in
    if keep mac then ((mac, e) ∷ kept, removed) else (kept, removed + 1)

unfoldable pub retain_only : Store → (Text → Bool) → Store × ℕ
unfolding sweep
retain_only s keep =
    let (kept, removed) = sweep keep s.entries in (record { entries = kept }, removed)

unfoldable pub size : Store → ℕ
size s = length s.entries
