-- ===== src/Pending/History.antt =====
-- internal/pending/pending.go against the history of the calls made: the last call that concerns
-- a machine decides what is queued for it.
use pxe_beacon.Base.{
  ℕ, ◌<◌, ◌≡◌, ◌↔◌, refl, subst, lt→ltb, Bool, true, false, Option, none, some, List, [], ◌∷◌,
  arith, if◌then◌else◌, is_positive, is_some, add_duration, ℤ, inl, inr, ◌⊎◌, Bool-cases, Text,
  lookup, lookup-insert, lookup-delete, lookup-retain, IsUnique, AllKeys, insert-IsUnique,
  delete-IsUnique, retain-IsUnique, insert-AllKeys, delete-AllKeys, retain-AllKeys,
}
use pxe_beacon.Mac.{canonical_mac}
use pxe_beacon.Mac.Canonical.{names, spells, IsCanonical, canonical_mac-IsCanonical}
use pxe_beacon.Pending.{
  Action, Entry, Store, Status, empty, queue, queue_entry, cancel, cancel_entry, live, entry_of,
  status, is_pending, retain_only,
}
use pxe_beacon.Pending.Retention.{sweep-retain}

-- One call that changes the store.
pub data Call : Type 0 where
  queued : ℕ → Text → Action → Call
  cancelled : Text → Call
  reloaded : (Text → Bool) → Call

unfoldable pub step : Store → Call → Store
step s (queued now mac action) = (queue s now mac action).0
step s (cancelled mac) = (cancel s mac).0
step s (reloaded known) = (retain_only s known).0

unfoldable pub run : Store → List Call → Store
run s [] = s
run s (call ∷ calls) = run (step s call) calls

-- What is queued for the address `c` after a call, from what was queued for it before.
unfoldable pub intent_step : Text → Option Entry → Call → Option Entry
intent_step c before (queued now mac action) =
    if spells mac c then some (record { action = action; requested_at = now }) else before
intent_step c before (cancelled mac) = if spells mac c then none else before
intent_step c before (reloaded known) = if known c then before else none

unfoldable pub intent : Text → Option Entry → List Call → Option Entry
intent c before [] = before
intent c before (call ∷ calls) = intent c (intent_step c before call) calls

lookup-queue_entry :
    (s : Store) (now : ℕ) (action : Action) (o : Option Text) (c : Text)
    → lookup c (queue_entry s now action o).0.entries ≡ (
        if names o c
        then some (record { action = action; requested_at = now })
        else lookup c s.entries)
unfolding queue_entry names
lookup-queue_entry s now action none c = refl
lookup-queue_entry s now action (some d) c = lookup-insert d c _ s.entries

lookup-cancel_entry :
    (s : Store) (o : Option Text) (c : Text)
    → lookup c (cancel_entry s o).0.entries ≡ (if names o c then none else lookup c s.entries)
unfolding cancel_entry names
lookup-cancel_entry s none c = refl
lookup-cancel_entry s (some d) c = lookup-delete d c s.entries

lookup-step :
    (s : Store) (c : Text) (call : Call)
    → lookup c (step s call).entries ≡ intent_step c (lookup c s.entries) call
unfolding step intent_step spells queue cancel retain_only
lookup-step s c (queued now mac action) = lookup-queue_entry s now action (canonical_mac mac) c
lookup-step s c (cancelled mac) = lookup-cancel_entry s (canonical_mac mac) c
lookup-step s c (reloaded known) =
    rw (sweep-retain known s.entries) (lookup-retain known c s.entries)

ttl-queue_entry :
    (s : Store) (now : ℕ) (action : Action) (o : Option Text)
    → (queue_entry s now action o).0.ttl ≡ s.ttl
unfolding queue_entry
ttl-queue_entry s now action none = refl
ttl-queue_entry s now action (some d) = refl

ttl-cancel_entry : (s : Store) (o : Option Text) → (cancel_entry s o).0.ttl ≡ s.ttl
unfolding cancel_entry
ttl-cancel_entry s none = refl
ttl-cancel_entry s (some d) = refl

ttl-step : (s : Store) (call : Call) → (step s call).ttl ≡ s.ttl
unfolding step queue cancel retain_only
ttl-step s (queued now mac action) = ttl-queue_entry s now action (canonical_mac mac)
ttl-step s (cancelled mac) = ttl-cancel_entry s (canonical_mac mac)
ttl-step s (reloaded known) = refl

lookup-run :
    (s : Store) (c : Text) (calls : List Call)
    → lookup c (run s calls).entries ≡ intent c (lookup c s.entries) calls
unfolding run intent
lookup-run s c [] = refl
lookup-run s c (call ∷ calls) = rw (lookup-run (step s call) c calls, lookup-step s c call)

ttl-run : (s : Store) (calls : List Call) → (run s calls).ttl ≡ s.ttl
unfolding run
ttl-run s [] = refl
ttl-run s (call ∷ calls) = rw (ttl-run (step s call) calls, ttl-step s call)

-- When a queued entry counts as pending: always with no positive time to live, and otherwise
-- strictly before the end of that time.
abbrev pub IsLive : ℤ → ℕ → Entry → Type 0
IsLive ttl now e = (is_positive ttl ≡ false) ⊎ (now < add_duration e.requested_at ttl)

live-eq-some :
    (ttl : ℤ) (now : ℕ) (o : Option Entry) (st : Status)
    → live ttl now o ≡ some st
    → (e : Entry) × (o ≡ some e)
      × IsLive ttl now e
      × (st.action ≡ e.action)
      × (st.requested_at ≡ e.requested_at)
unfolding live
live-eq-some ttl now none st h = cc
live-eq-some ttl now (some e) st h =
    let alive : IsLive ttl now e = elim (Bool-cases (is_positive ttl)) [
      | inl p ↦ inr (ground arith)
      | inr p ↦ inl p
    ] in
    (e, refl, alive, ground arith, ground arith)

is_some-live :
    (ttl : ℤ) (now : ℕ) (e : Entry) → IsLive ttl now e → is_some (live ttl now (some e)) ≡ true
unfolding live
is_some-live ttl now e (inl p) = rw p
is_some-live ttl now e (inr h) = rw (lt→ltb _ _ h) (ground arith)

is_some-live_iff :
    (ttl : ℤ) (now : ℕ) (o : Option Entry)
    → (is_some (live ttl now o) ≡ true) ↔ ((e : Entry) × (o ≡ some e) × IsLive ttl now e)
unfolding live
is_some-live_iff ttl now none = ((λ h. absurd (ground arith)), (λ h. absurd (ground (arith, h.1))))
is_some-live_iff ttl now (some e) = (
  (λ h. (
    e,
    refl,
    elim (Bool-cases (is_positive ttl)) [ inl p ↦ inr (ground arith) | inr p ↦ inl p ],
  )),
  (λ h. let same : h.0 ≡ e = cc (h.1) in is_some-live ttl now e (subst (IsLive ttl now) same h.2)),
)

at_run :
    (ttl : ℤ) (calls : List Call) (now : ℕ) (mac c : Text)
    → canonical_mac mac ≡ some c
    → status (run (empty ttl) calls) now mac ≡ live ttl now (intent c none calls)
unfolding status empty intent lookup
at_run ttl calls now mac c known =
    rw (known, entry_of) (rw (ttl-run (empty ttl) calls, lookup-run (empty ttl) c calls))

-- After any calls on a new store, a status that is reported for a machine is that of the last call
-- that concerned it, and that entry has not expired.
pub status-run_sound :
    (ttl : ℤ) (calls : List Call) (now : ℕ) (mac c : Text) (st : Status)
    → canonical_mac mac ≡ some c
    → status (run (empty ttl) calls) now mac ≡ some st
    → (e : Entry) × (intent c none calls ≡ some e)
      × IsLive ttl now e
      × (st.action ≡ e.action)
      × (st.requested_at ≡ e.requested_at)
unfolding status
status-run_sound ttl calls now mac c st known h =
    live-eq-some ttl now (intent c none calls) st (rw (← at_run ttl calls now mac c known) h)

-- After any calls on a new store, a machine is pending exactly when the last call that concerned it
-- queued an action that has not expired.
pub is_pending-run_iff :
    (ttl : ℤ) (calls : List Call) (now : ℕ) (mac c : Text)
    → canonical_mac mac ≡ some c
    → (is_pending (run (empty ttl) calls) now mac ≡ true)
      ↔ ((e : Entry) × (intent c none calls ≡ some e) × IsLive ttl now e)
unfolding is_pending
is_pending-run_iff ttl calls now mac c known =
    rw (at_run ttl calls now mac c known) (is_some-live_iff ttl now (intent c none calls))

-- Distinct keys, each a canonical address.
pub record IsValid (s : Store) : Type 0 where
  pub unique : IsUnique s.entries
  pub canonical : AllKeys IsCanonical s.entries

queue_entry-IsValid :
    (s : Store) (now : ℕ) (action : Action) (o : Option Text)
    → ((d : Text) → o ≡ some d → IsCanonical d)
    → IsValid s
    → IsValid (queue_entry s now action o).0
unfolding queue_entry
queue_entry-IsValid s now action none good v = v
queue_entry-IsValid s now action (some d) good v = record {
  unique = insert-IsUnique d _ s.entries v.unique;
  canonical = insert-AllKeys IsCanonical d _ s.entries (good d refl) v.canonical;
}

cancel_entry-IsValid : (s : Store) (o : Option Text) → IsValid s → IsValid (cancel_entry s o).0
unfolding cancel_entry
cancel_entry-IsValid s none v = v
cancel_entry-IsValid s (some d) v = record {
  unique = delete-IsUnique d s.entries v.unique;
  canonical = delete-AllKeys IsCanonical d s.entries v.canonical;
}

step-IsValid : (s : Store) (call : Call) → IsValid s → IsValid (step s call)
unfolding step queue cancel retain_only
step-IsValid s (queued now mac action) v =
    queue_entry-IsValid s now action (canonical_mac mac) (canonical_mac-IsCanonical mac) v
step-IsValid s (cancelled mac) v = cancel_entry-IsValid s (canonical_mac mac) v
step-IsValid s (reloaded known) v = record {
  unique = rw (sweep-retain known s.entries) (retain-IsUnique known s.entries v.unique);
  canonical =
      rw (sweep-retain known s.entries) (retain-AllKeys IsCanonical known s.entries v.canonical);
}

-- Every reachable store has distinct keys, each a canonical address.
pub run-IsValid : (s : Store) (calls : List Call) → IsValid s → IsValid (run s calls)
unfolding run
run-IsValid s [] v = v
run-IsValid s (call ∷ calls) v = run-IsValid (step s call) calls (step-IsValid s call v)
