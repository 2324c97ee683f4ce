-- ===== src/Sightings/Counting.antt =====
-- How often internal/sightings/sightings.go says that a machine was seen.
use pxe_beacon.Base.{
  ℕ, suc, ◌+◌, ◌≤◌, ◌≡◌, subst, ◌∙◌, Option, none, some, List, [], ◌∷◌, arith, inl, inr,
  if◌then◌else◌, Bool-cases, Option-cases, length, Text, text_eq, text_eq_iff, Map, lookup,
  lookup-insert, length-insert,
}
use pxe_beacon.Mac.{canonical_mac}
use pxe_beacon.Mac.Canonical.{names, spells}
use pxe_beacon.Sightings.{
  max_entries, Entry, Store, empty, seen_again, first_sighting, room, note_known, note_entry, note,
}
use pxe_beacon.Sightings.Eviction.{lookup-note_known_new}

-- One DISCOVER: the time, the address, the label of the architecture and the vendor class.
pub record Discover : Type 0 where
  pub now : ℕ
  pub mac : Text
  pub arch : Text
  pub vendor_class : Text

unfoldable pub note_all : Store → List Discover → Store
note_all s [] = s
note_all s (d ∷ ds) = note_all (note s d.now d.mac d.arch d.vendor_class) ds

-- How many of the DISCOVERs come from the canonical address `c`.
unfoldable pub times : Text → List Discover → ℕ
times c [] = 0
times c (d ∷ ds) = if spells d.mac c then suc (times c ds) else times c ds

unfoldable pub count_of : Option Entry → ℕ
count_of none = 0
count_of (some e) = e.count

room_spare : (m : Map Entry) → suc (length m) ≤ max_entries → room m ≡ m
unfolding room
room_spare m h = ground arith

lookup-note_known_again :
    (m : Map Entry) (now : ℕ) (d arch vendor_class c : Text) (e : Entry)
    → lookup c (note_known m now d arch vendor_class (some e))
      ≡ (if text_eq d c then some (seen_again e now arch vendor_class) else lookup c m)
unfolding note_known
lookup-note_known_again m now d arch vendor_class c e = lookup-insert d c _ m

count_of-again :
    (o : Option Entry) (e : Entry) (now : ℕ) (arch vendor_class : Text)
    → o ≡ some e
    → count_of (some (seen_again e now arch vendor_class)) ≡ suc (count_of o)
unfolding count_of seen_again
count_of-again o e now arch vendor_class h = rw h (omega arith)

count_of-first :
    (o : Option Entry) (now : ℕ) (arch vendor_class : Text)
    → o ≡ none
    → count_of (some (first_sighting now arch vendor_class)) ≡ suc (count_of o)
unfolding count_of first_sighting
count_of-first o now arch vendor_class h = rw h (omega arith)

count_of-note_known :
    (m : Map Entry) (now : ℕ) (d c arch vendor_class : Text)
    → suc (length m) ≤ max_entries
    → count_of (lookup c (note_known m now d arch vendor_class (lookup d m)))
      ≡ (if text_eq d c then suc (count_of (lookup c m)) else count_of (lookup c m))
count_of-note_known m now d c arch vendor_class h = elim (Option-cases (lookup d m)) [
  | inl absent ↦ elim (Bool-cases (text_eq d c)) [
    | inl e ↦
        let gone : lookup c m ≡ none =
          subst (λ k. lookup k m ≡ none) ((text_eq_iff d c).0 e) absent in
        rw (absent, lookup-note_known_new, e) (count_of-first _ now arch vendor_class gone)
    | inr e ↦ rw (absent, lookup-note_known_new, e, room_spare m h)
  ]
  | inr (x, here) ↦ elim (Bool-cases (text_eq d c)) [
    | inl e ↦
        let found : lookup c m ≡ some x =
          subst (λ k. lookup k m ≡ some x) ((text_eq_iff d c).0 e) here in
        rw (here, lookup-note_known_again, e) (count_of-again _ x now arch vendor_class found)
    | inr e ↦ rw (here, lookup-note_known_again, e)
  ]
]

length-note_known-le :
    (m : Map Entry) (now : ℕ) (d arch vendor_class : Text) (o : Option Entry)
    → suc (length m) ≤ max_entries
    → length (note_known m now d arch vendor_class o) ≤ suc (length m)
unfolding note_known
length-note_known-le m now d arch vendor_class none h =
    rw (room_spare m h, length-insert) (ground arith)
length-note_known-le m now d arch vendor_class (some e) h = rw length-insert (ground arith)

module _ (s : Store) (d : Discover) (c : Text) (h : suc (length s.entries) ≤ max_entries) where
  count_of-note : count_of (lookup c (note s d.now d.mac d.arch d.vendor_class).entries) ≡ (
      if spells d.mac c then suc (count_of (lookup c s.entries)) else count_of (lookup c s.entries))
  unfolding note note_entry spells names
  count_of-note = elim (Option-cases (canonical_mac d.mac)) [
    | inl e ↦ rw (e, note_entry, names)
    | inr (k, e) ↦
        rw (e, note_entry, names) (count_of-note_known s.entries d.now k c d.arch d.vendor_class h)
  ]

  length-note-le :
      length (note s d.now d.mac d.arch d.vendor_class).entries ≤ suc (length s.entries)
  unfolding note note_entry
  length-note-le = elim (Option-cases (canonical_mac d.mac)) [
    | inl e ↦ rw (e, note_entry) (omega arith)
    | inr (k, e) ↦
        rw (e, note_entry)
          (length-note_known-le s.entries d.now k d.arch d.vendor_class (lookup k s.entries) h)
  ]

count_of-note_all :
    (s : Store) (ds : List Discover) (c : Text)
    → length s.entries + length ds ≤ max_entries
    → count_of (lookup c (note_all s ds).entries) ≡ count_of (lookup c s.entries) + times c ds
unfolding note_all times
count_of-note_all s [] c h = omega arith
count_of-note_all s (d ∷ ds) c h =
    let less : suc (length s.entries) ≤ max_entries = omega arith in
    let rest =
      count_of-note_all (note s d.now d.mac d.arch d.vendor_class) ds c
        (omega (arith, length-note-le s d c less)) in
    ground (arith, rest, count_of-note s d c less)

-- In a store that no more than 256 DISCOVERs can fill, the count of each address is the number of
-- DISCOVERs from it, however their addresses were spelled.
pub count_of-empty :
    (ds : List Discover) (c : Text)
    → length ds ≤ max_entries
    → count_of (lookup c (note_all empty ds).entries) ≡ times c ds
unfolding empty lookup count_of
count_of-empty ds c h = count_of-note_all empty ds c (omega arith) ∙ omega arith
