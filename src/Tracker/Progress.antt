-- ===== src/Tracker/Progress.antt =====
-- Note and LastEvent of internal/fleet/status.go over a run of notes.
use pxe_beacon.Base.{
  ℕ, ◌≤◌, ◌≡◌, refl, subst, ap, ◌∙◌, ◌⊎◌, inl, inr, true, false, Option, none, some, List, [], ◌∷◌,
  arith, if◌then◌else◌, leb, Bool-cases, All, Text, text_eq, text_eq_iff, lookup, lookup-insert,
}
use mathlib.Core.List.{Memᴰ}
use pxe_beacon.Mac.{canonical_mac}
use pxe_beacon.Mac.Canonical.{names, spells}
use pxe_beacon.Fleet.{Fleet}
use pxe_beacon.Tracker.{
  Event, rank, is_failed, Tracker, Status, status_or_fresh, fresh_status, renamed, advanced, noted,
  note_entry, note, state_of, event_at, last_event,
}

-- A call of `Note`: the fleet and the time then, the address and the event.
pub record Report : Type 0 where
  pub fleet : Option Fleet
  pub now : ℕ
  pub mac : Text
  pub event : Event

unfoldable pub note_all : Tracker → List Report → Tracker
note_all t [] = t
note_all t (r ∷ rs) = note_all (note t r.fleet r.now r.mac r.event) rs

-- The events reported for the canonical address `c`, the earliest first.
unfoldable pub events_for : Text → List Report → List Event
events_for c [] = []
events_for c (r ∷ rs) =
    let rest = events_for c rs in if spells r.mac c then r.event ∷ rest else rest

state_of-renamed :
    (fleet : Option Fleet) (canon : Text) (o : Option Status)
    → (renamed fleet canon (status_or_fresh canon o)).state ≡ state_of o
unfolding renamed status_or_fresh fresh_status state_of
state_of-renamed none canon none = refl
state_of-renamed none canon (some s) = refl
state_of-renamed (some f) canon none = refl
state_of-renamed (some f) canon (some s) = refl

pub state_of-note_entry :
    (t : Tracker) (fleet : Option Fleet) (now : ℕ) (ev : Event) (o : Option Text) (c : Text)
    → state_of (lookup c (note_entry t fleet now ev o).machines) ≡ (
        if names o c
        then advanced (state_of (lookup c t.machines)) ev
        else state_of (lookup c t.machines))
unfolding note_entry names
state_of-note_entry t fleet now ev none c = refl
state_of-note_entry t fleet now ev (some d) c = elim (Bool-cases (text_eq d c)) [
  | inl e ↦
      rw (lookup-insert, e)
        (unfold state_of noted in
          (ap (λ s. advanced s ev) (state_of-renamed fleet d (lookup d t.machines))
            ∙ ap (λ k. advanced (state_of (lookup k t.machines)) ev) ((text_eq_iff d c).0 e)))
  | inr e ↦ rw (lookup-insert, e)
]

-- `s` is the furthest of the state `before` and the events.
pub record IsFurthest (before : Event) (events : List Event) (s : Event) : Type 0 where
  pub from : (s ≡ before) ⊎ Memᴰ s events
  pub past_before : rank before ≤ rank s
  pub past_events : All (λ e. rank e ≤ rank s) events

advanced_lem :
    (before ev : Event)
    → is_failed ev ≡ false
    → ((advanced before ev ≡ before) ⊎ (advanced before ev ≡ ev))
      × (rank before ≤ rank (advanced before ev))
      × (rank ev ≤ rank (advanced before ev))
unfolding advanced
advanced_lem before ev fine = elim (Bool-cases (leb (rank before) (rank ev))) [
  | inl e ↦ rw (fine, e) (inr refl, ground (arith, e), ground arith)
  | inr e ↦ rw (fine, e) (inl refl, ground arith, ground (arith, e))
]

IsFurthest-advanced :
    (before ev s : Event) (events : List Event)
    → is_failed ev ≡ false
    → IsFurthest (advanced before ev) events s
    → IsFurthest before (ev ∷ events) s
IsFurthest-advanced before ev s events fine f =
    let (from, past, reached) = advanced_lem before ev fine in
    record {
      from = elim f.from [
        | inr later ↦ inr (Memᴰ.tail later)
        | inl here ↦ elim from [
          | inl old ↦ inl (here ∙ old)
          | inr new ↦ inr (Memᴰ.head (here ∙ new))
        ]
      ];
      past_before = omega (arith, past, f.past_before);
      past_events = (omega (arith, reached, f.past_before), f.past_events);
    }

state_of-note_own :
    (t : Tracker) (r : Report) (c : Text)
    → spells r.mac c ≡ true
    → state_of (lookup c (note t r.fleet r.now r.mac r.event).machines)
      ≡ advanced (state_of (lookup c t.machines)) r.event
unfolding note spells
state_of-note_own t r c e =
    state_of-note_entry t r.fleet r.now r.event (canonical_mac r.mac) c ∙ rw e

state_of-note_other :
    (t : Tracker) (r : Report) (c : Text)
    → spells r.mac c ≡ false
    → state_of (lookup c (note t r.fleet r.now r.mac r.event).machines)
      ≡ state_of (lookup c t.machines)
unfolding note spells
state_of-note_other t r c e =
    state_of-note_entry t r.fleet r.now r.event (canonical_mac r.mac) c ∙ rw e

IsFurthest-note_all :
    (t : Tracker) (rs : List Report) (c : Text)
    → All (λ e. is_failed e ≡ false) (events_for c rs)
    → IsFurthest
        (state_of (lookup c t.machines))
        (events_for c rs)
        (state_of (lookup c (note_all t rs).machines))
unfolding note_all events_for
IsFurthest-note_all t [] c fine = record {
  from = inl refl;
  past_before = omega arith;
  past_events = tt;
}
IsFurthest-note_all t (r ∷ rs) c fine = elim (Bool-cases (spells r.mac c)) [
  | inl e ↦
      let (first, others) = (rw e at fine) in
      rw e (
        IsFurthest-advanced _ _ _ _ first (
          subst
            (λ (s : Event).
              IsFurthest s (events_for c rs)
                (state_of (lookup c (note_all (note t r.fleet r.now r.mac r.event) rs).machines)))
            (state_of-note_own t r c e)
            (IsFurthest-note_all (note t r.fleet r.now r.mac r.event) rs c others)))
  | inr e ↦ rw e (
      subst
        (λ (s : Event).
          IsFurthest s (events_for c rs)
            (state_of (lookup c (note_all (note t r.fleet r.now r.mac r.event) rs).machines)))
        (state_of-note_other t r c e)
        (IsFurthest-note_all (note t r.fleet r.now r.mac r.event) rs c (rw e at fine)))
]

pub last_event-known :
    (t : Tracker) (mac c : Text)
    → canonical_mac mac ≡ some c
    → last_event t mac ≡ state_of (lookup c t.machines)
unfolding last_event event_at
last_event-known t mac c known = rw (known, event_at)

-- Over a run of notes in which none says that this machine failed, its state moves to the furthest
-- stage of its state before and the events reported for it: it is one of these, and none of them is
-- further.
pub last_event-IsFurthest :
    (t : Tracker) (rs : List Report) (mac c : Text)
    → canonical_mac mac ≡ some c
    → All (λ e. is_failed e ≡ false) (events_for c rs)
    → IsFurthest (last_event t mac) (events_for c rs) (last_event (note_all t rs) mac)
last_event-IsFurthest t rs mac c known fine =
    rw (last_event-known t mac c known, last_event-known (note_all t rs) mac c known)
      (IsFurthest-note_all t rs c fine)
