-- ===== src/Pending/Queueing.antt =====
-- queue of internal/pending/pending.go seen through Status.
use pxe_beacon.Base.{
  ℕ, ◌<◌, ◌≡◌, refl, false, ◌⊎◌, some, arith, inl, inr, is_positive, lt→ltb, add_duration, ℤ, Text,
  text_eq_refl, lookup, lookup-insert,
}
use mathlib.Core.Option
use pxe_beacon.Mac.{canonical_mac}
use pxe_beacon.Pending.{Action, Store, Status, live, status, queue, queue_entry}
use pxe_beacon.Pending.Cancelling.{status-known}

action-live :
    (ttl : ℤ) (now now' : ℕ) (a : Action)
    → (is_positive ttl ≡ false) ⊎ (now' < add_duration now ttl)
    → Option.map
        (λ (st : Status). st.action)
        (live ttl now' (some (record { action = a; requested_at = now })))
      ≡ some a
unfolding live
action-live ttl now now' a (inl p) = rw p refl
action-live ttl now now' a (inr h) = rw (lt→ltb _ _ h) (ground arith)

action-queue_entry :
    (s : Store) (now now' : ℕ) (c : Text) (a : Action)
    → (is_positive s.ttl ≡ false) ⊎ (now' < add_duration now s.ttl)
    → Option.map
        (λ (st : Status). st.action)
        (live
          (queue_entry s now a (some c)).0.ttl
          now'
          (lookup c (queue_entry s now a (some c)).0.entries))
      ≡ some a
unfolding queue_entry
action-queue_entry s now now' c a h =
    rw (lookup-insert, text_eq_refl c) (action-live s.ttl now now' a h)

-- An action that is queued is the status of its machine as long as it has not expired.
pub action-queue :
    (s : Store) (now now' : ℕ) (mac mac' c : Text) (a : Action)
    → canonical_mac mac ≡ some c
    → canonical_mac mac' ≡ some c
    → (is_positive s.ttl ≡ false) ⊎ (now' < add_duration now s.ttl)
    → Option.map (λ (st : Status). st.action) (status (queue s now mac a).0 now' mac') ≡ some a
unfolding queue
action-queue s now now' mac mac' c a known known' h =
    rw (known, status-known (queue_entry s now a (some c)).0 now' mac' c known')
      (action-queue_entry s now now' c a h)
