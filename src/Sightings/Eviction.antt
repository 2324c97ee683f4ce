-- ===== src/Sightings/Eviction.antt =====
-- The bound on the store of internal/sightings/sightings.go, and what is evicted to keep it.
use pxe_beacon.Base.{
  ℕ, suc, ◌≤◌, ◌≡◌, refl, sym, subst, inl, inr, Bool, true, Option, none, some, List, [], ◌∷◌,
  arith, ◌≢◌, leb, if◌then◌else◌, Bool-cases, Option-cases, length, All, Text, text_eq, Map, lookup,
  insert, delete, lookup-insert, lookup-delete, IsUnique, AllKeys, insert-IsUnique, delete-IsUnique,
  retain-IsUnique, insert-AllKeys, delete-AllKeys, retain-AllKeys, length-insert, lookup-AllKeys,
  length-retain-le, length-delete-lt, length-delete-le, retain, lookup-retain,
}
use pxe_beacon.Mac.{canonical_mac}
use pxe_beacon.Mac.Canonical.{IsCanonical, canonical_mac-IsCanonical}
use pxe_beacon.Sightings.{
  max_entries, Entry, Store, oldest_from, evict_oldest, first_sighting, room, note_known,
  note_entry, note, forget, forget_entry, retain_only, sweep,
}
use pxe_beacon.Sightings.Oldest.{Occurs-lookup, IsNonempty, oldest_from_entry}

-- Distinct keys, each a canonical address, and never more than 256 of them.
pub record IsBounded (s : Store) : Type 0 where
  pub unique : IsUnique s.entries
  pub canonical : AllKeys IsCanonical s.entries
  pub bounded : length s.entries ≤ max_entries

IsCanonical-IsNonempty : (k : Text) → IsCanonical k → IsNonempty k
IsCanonical-IsNonempty [] h = elim h [ ]
IsCanonical-IsNonempty (b ∷ k) h = refl

AllKeys-IsNonempty : (m : Map Entry) → AllKeys IsCanonical m → AllKeys IsNonempty m
AllKeys-IsNonempty [] h = tt
AllKeys-IsNonempty ((k, e) ∷ m) (c, h) = (IsCanonical-IsNonempty k c, AllKeys-IsNonempty m h)

-- What `evictOldestLocked` deletes from a map that is not empty: an entry that is there, and that
-- no entry is older than.
evict_oldest_lem :
    (m : Map Entry)
    → m ≢ []
    → IsUnique m
    → AllKeys IsCanonical m
    → (old : Text) × (e : Entry) × (lookup old m ≡ some e)
      × All (λ (x : Text × Entry). e.last_seen ≤ x.1.last_seen) m
      × (evict_oldest m ≡ delete old m)
unfolding evict_oldest
evict_oldest_lem m ne u ks =
    let (there, below) = oldest_from_entry m ne (AllKeys-IsNonempty m ks) in
    let (e, found, at) = Occurs-lookup _ _ m u there in
    (
      (oldest_from [] 0 m).0,
      e,
      found,
      subst (λ t. All (λ (x : Text × Entry). t ≤ x.1.last_seen) m) (sym at) below,
      rw (lookup-AllKeys IsNonempty _ m e found (AllKeys-IsNonempty m ks)) refl,
    )

evict_oldest-lt :
    (m : Map Entry)
    → m ≢ []
    → IsUnique m
    → AllKeys IsCanonical m
    → suc (length (evict_oldest m)) ≤ length m
evict_oldest-lt m ne u ks =
    let (old, e, found, below, same) = evict_oldest_lem m ne u ks in
    rw same (length-delete-lt old m (rw found))

evict_oldest-IsUnique : (m : Map Entry) → IsUnique m → IsUnique (evict_oldest m)
unfolding evict_oldest
evict_oldest-IsUnique m u = ground (arith, delete-IsUnique (oldest_from [] 0 m).0 m u)

evict_oldest-AllKeys :
    (m : Map Entry) → AllKeys IsCanonical m → AllKeys IsCanonical (evict_oldest m)
unfolding evict_oldest
evict_oldest-AllKeys m h = ground (arith, delete-AllKeys IsCanonical (oldest_from [] 0 m).0 m h)

full-ne-nil : (m : Map Entry) → leb max_entries (length m) ≡ true → m ≢ []
full-ne-nil [] h e = absurd (ground arith)
full-ne-nil (x ∷ m) h e = cc

room-lt :
    (m : Map Entry)
    → IsUnique m
    → AllKeys IsCanonical m
    → length m ≤ max_entries
    → suc (length (room m)) ≤ max_entries
unfolding room
room-lt m u ks h = elim (Bool-cases (leb max_entries (length m))) [
  | inl full ↦ rw full (omega (arith, evict_oldest-lt m (full-ne-nil m full) u ks))
  | inr spare ↦ rw spare (ground arith)
]

length-insert-le : (k : Text) (v : Entry) (m : Map Entry) → length (insert k v m) ≤ suc (length m)
length-insert-le k v m = ground (arith, length-insert k v m)

room-IsUnique : (m : Map Entry) → IsUnique m → IsUnique (room m)
unfolding room
room-IsUnique m u = ground (arith, evict_oldest-IsUnique m u)

room-AllKeys : (m : Map Entry) → AllKeys IsCanonical m → AllKeys IsCanonical (room m)
unfolding room
room-AllKeys m h = ground (arith, evict_oldest-AllKeys m h)

note_known-IsBounded :
    (s : Store) (now : ℕ) (c arch vendor_class : Text)
    → IsCanonical c
    → IsBounded s
    → IsBounded
        (record { entries = note_known s.entries now c arch vendor_class (lookup c s.entries) })
unfolding note_known
note_known-IsBounded s now c arch vendor_class good v = elim (Option-cases (lookup c s.entries)) [
  | inl absent ↦
      rw (absent, note_known)
        (record {
          unique = insert-IsUnique c _ (room s.entries) (room-IsUnique s.entries v.unique);
          canonical =
              insert-AllKeys IsCanonical c _ (room s.entries) good
                (room-AllKeys s.entries v.canonical);
          bounded = omega (
            arith,
            length-insert-le c (first_sighting now arch vendor_class) (room s.entries),
            room-lt s.entries v.unique v.canonical v.bounded,
          );
        })
  | inr (e, here) ↦
      rw (here, note_known)
        (record {
          unique = insert-IsUnique c _ s.entries v.unique;
          canonical = insert-AllKeys IsCanonical c _ s.entries good v.canonical;
          bounded = rw (length-insert, here) v.bounded;
        })
]

note-IsBounded :
    (s : Store) (now : ℕ) (mac arch vendor_class : Text)
    → IsBounded s
    → IsBounded (note s now mac arch vendor_class)
unfolding note note_entry
note-IsBounded s now mac arch vendor_class v = elim (Option-cases (canonical_mac mac)) [
  | inl e ↦ rw (e, note_entry) v
  | inr (c, e) ↦
      rw (e, note_entry)
        (note_known-IsBounded s now c arch vendor_class (canonical_mac-IsCanonical mac c e) v)
]

sweep-retain : (keep : Text → Bool) (m : Map Entry) → (sweep keep m).0 ≡ retain keep m
unfolding sweep retain
sweep-retain keep [] = refl
sweep-retain keep ((k, e) ∷ m) = ground (arith, sweep-retain keep m)

-- One call that changes the store.
pub data Call : Type 0 where
  noted : ℕ → Text → Text → Text → Call
  forgotten : Text → Call
  retained : (Text → Bool) → Call

unfoldable pub step : Store → Call → Store
step s (noted now mac arch vendor_class) = note s now mac arch vendor_class
step s (forgotten mac) = (forget s mac).0
step s (retained keep) = (retain_only s keep).0

unfoldable pub run : Store → List Call → Store
run s [] = s
run s (call ∷ calls) = run (step s call) calls

forget_entry-IsBounded :
    (s : Store) (o : Option Text) → IsBounded s → IsBounded (forget_entry s o).0
unfolding forget_entry
forget_entry-IsBounded s none v = v
forget_entry-IsBounded s (some c) v = record {
  unique = delete-IsUnique c s.entries v.unique;
  canonical = delete-AllKeys IsCanonical c s.entries v.canonical;
  bounded = omega (arith, length-delete-le c s.entries, v.bounded);
}

step-IsBounded : (s : Store) (call : Call) → IsBounded s → IsBounded (step s call)
unfolding step forget retain_only
step-IsBounded s (noted now mac arch vendor_class) v = note-IsBounded s now mac arch vendor_class v
step-IsBounded s (forgotten mac) v = forget_entry-IsBounded s (canonical_mac mac) v
step-IsBounded s (retained keep) v = rw (sweep-retain keep s.entries) (record {
  unique = retain-IsUnique keep s.entries v.unique;
  canonical = retain-AllKeys IsCanonical keep s.entries v.canonical;
  bounded = omega (arith, length-retain-le keep s.entries, v.bounded);
})

-- Whatever calls are made, a store with distinct canonical keys and at most 256 entries stays so.
pub run-IsBounded : (s : Store) (calls : List Call) → IsBounded s → IsBounded (run s calls)
unfolding run
run-IsBounded s [] v = v
run-IsBounded s (call ∷ calls) v = run-IsBounded (step s call) calls (step-IsBounded s call v)

pub entries-note :
    (s : Store) (now : ℕ) (mac c arch vendor_class : Text)
    → canonical_mac mac ≡ some c
    → (note s now mac arch vendor_class).entries
      ≡ note_known s.entries now c arch vendor_class (lookup c s.entries)
unfolding note note_entry
entries-note s now mac c arch vendor_class e = rw (e, note_entry)

pub lookup-note_known_new :
    (m : Map Entry) (now : ℕ) (c arch vendor_class j : Text)
    → lookup j (note_known m now c arch vendor_class none)
      ≡ (if text_eq c j then some (first_sighting now arch vendor_class) else lookup j (room m))
unfolding note_known
lookup-note_known_new m now c arch vendor_class j = lookup-insert c j _ (room m)

room_full : (m : Map Entry) → leb max_entries (length m) ≡ true → room m ≡ evict_oldest m
unfolding room
room_full m h = rw h

-- What an entry is replaced by, at each key, when a new machine is noted in a full store.
abbrev pub after_eviction : Text → Text → Entry → Map Entry → Text → Option Entry
after_eviction c old new m j =
    if text_eq c j then some new else if text_eq old j then none else lookup j m

-- Noting a machine that is not in a full store evicts one entry, which no other entry is older
-- than; the machine is written with the count 1, and all other entries stay as they were.
pub note_full :
    (s : Store) (now : ℕ) (mac c arch vendor_class : Text)
    → IsBounded s
    → canonical_mac mac ≡ some c
    → lookup c s.entries ≡ none
    → length s.entries ≡ max_entries
    → (old : Text) × (e : Entry) × (lookup old s.entries ≡ some e)
      × All (λ (x : Text × Entry). e.last_seen ≤ x.1.last_seen) s.entries
      × ((j : Text)
          → lookup j (note s now mac arch vendor_class).entries
            ≡ after_eviction c old (first_sighting now arch vendor_class) s.entries j)
note_full s now mac c arch vendor_class v known absent full =
    let some_there : leb max_entries (length s.entries) ≡ true = ground arith in
    let (old, e, found, below, same) =
      evict_oldest_lem s.entries (full-ne-nil s.entries some_there) v.unique v.canonical in
    (
      old,
      e,
      found,
      below,
      λ j. rw (
        entries-note s now mac c arch vendor_class known,
        absent,
        lookup-note_known_new,
        room_full s.entries some_there,
        same,
        lookup-delete,
      ),
    )

-- A sighting that `keep` rejects is dropped.
pub lookup-retain_only :
    (s : Store) (keep : Text → Bool) (c : Text)
    → lookup c (retain_only s keep).0.entries ≡ (if keep c then lookup c s.entries else none)
unfolding retain_only
lookup-retain_only s keep c = rw (sweep-retain keep s.entries) (lookup-retain keep c s.entries)
