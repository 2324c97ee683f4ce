-- ===== src/Pending/Cancelling.antt =====
-- Cancel of internal/pending/pending.go seen through Status, and Status over time.
use pxe_beacon.Base.{
  ℕ, ◌≤◌, ◌≡◌, refl, false, Option, none, some, arith, inl, inr, if◌then◌else◌, is_some, ℤ,
  Bool-cases, Text, text_eq, lookup, lookup-delete,
}
use pxe_beacon.Mac.{canonical_mac}
use pxe_beacon.Mac.Canonical.{names, spells}
use pxe_beacon.Pending.{Entry, Store, live, entry_of, status, is_pending, cancel, cancel_entry}

live-none : (ttl : ℤ) (now : ℕ) → live ttl now none ≡ none
unfolding live
live-none ttl now = refl

status-cancel_entry :
    (s : Store) (now : ℕ) (o : Option Text) (c : Text)
    → live (cancel_entry s o).0.ttl now (lookup c (cancel_entry s o).0.entries)
      ≡ (if names o c then none else live s.ttl now (lookup c s.entries))
unfolding cancel_entry names
status-cancel_entry s now none c = refl
status-cancel_entry s now (some d) c = elim (Bool-cases (text_eq d c)) [
  | inl e ↦ rw (lookup-delete, e) (live-none s.ttl now)
  | inr e ↦ rw (lookup-delete, e)
]

pub status-known :
    (s : Store) (now : ℕ) (mac c : Text)
    → canonical_mac mac ≡ some c
    → status s now mac ≡ live s.ttl now (lookup c s.entries)
unfolding status entry_of
status-known s now mac c known = rw (known, entry_of)

pub status-cancel :
    (s : Store) (now : ℕ) (mac mac' c : Text)
    → canonical_mac mac' ≡ some c
    → status (cancel s mac).0 now mac' ≡ (if spells mac c then none else status s now mac')
unfolding cancel spells
status-cancel s now mac mac' c known =
    rw
      (
        status-known (cancel_entry s (canonical_mac mac)).0 now mac' c known,
        status-known s now mac' c known,
      )
      (status-cancel_entry s now (canonical_mac mac) c)

live-later :
    (ttl : ℤ) (now now' : ℕ) (o : Option Entry)
    → now ≤ now'
    → is_some (live ttl now o) ≡ false
    → is_some (live ttl now' o) ≡ false
unfolding live
live-later ttl now now' none h e = refl
live-later ttl now now' (some x) h e = ground (arith, h, e)

-- What is not pending does not become pending by the passing of time.
pub is_pending-later :
    (s : Store) (now now' : ℕ) (mac mac' c : Text)
    → canonical_mac mac ≡ some c
    → canonical_mac mac' ≡ some c
    → now ≤ now'
    → is_pending s now mac ≡ false
    → is_pending s now' mac' ≡ false
unfolding is_pending
is_pending-later s now now' mac mac' c known known' h e =
    rw (status-known s now' mac' c known')
      (live-later s.ttl now now' (lookup c s.entries) h (rw (status-known s now mac c known) at e))
