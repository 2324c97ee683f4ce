-- ===== src/Httpd/Queued.antt =====
-- handleAPISetIntent and handleAPIGetIntent of internal/httpd/api.go: what a client reads after it
-- has set an intent.
use pxe_beacon.Base.{
  ℕ, ◌<◌, ◌≡◌, refl, ap, ◌∙◌, ◌⊎◌, false, Option, none, some, is_empty, is_positive, add_duration,
  Text, text_eq, text_eq_refl, ok,
}
use mathlib.Core.Option
use pxe_beacon.Mac.{canonical_mac}
use pxe_beacon.Mac.Canonical.{canonical_mac_idempotent, spells, names}
use pxe_beacon.Pending.{Action, Store, Status, status, queue, cancel}
use pxe_beacon.Pending.Queueing.{action-queue}
use pxe_beacon.Pending.Cancelling.{status-cancel}
use pxe_beacon.Fleet.{Fleet, lookup_machine}
use pxe_beacon.Tracker.{Tracker}
use pxe_beacon.Httpd.{
  Server, ActionField, null, text_action, set_action, set_field, intent_for, ready_intent,
  set_intent,
}
use pxe_beacon.Httpd.Events.{serving}
use pxe_beacon.Httpd.Intents.{action_text, fleet_member-named, set_field-queue}
use pxe_beacon.Httpd.Paging.{build_desired}
use pxe_beacon.Httpd.Reading.{IntentView, build_intent_view, intent_answer, intent_of, get_intent}

-- The request for the intent of the machine `c`, by the address `raw`, shows the action `o`.
abbrev pub Shows : Server → ℕ → Text → Text → Option Action → Type 0
Shows s now raw c o =
    (v : IntentView) × (get_intent s now raw ≡ ok v)
    × (v.mac ≡ c)
    × (Option.map (λ (st : Status). st.action) v.desired ≡ o)

serving-Shows :
    (f : Fleet) (t : Tracker) (q : Store) (now : ℕ) (raw c : Text) (o : Option Action)
    → canonical_mac raw ≡ some c
    → is_empty (lookup_machine f c).name ≡ false
    → Option.map (λ (st : Status). st.action) (status q now c) ≡ o
    → Shows (serving f t q) now raw c o
unfolding get_intent intent_of intent_answer build_intent_view build_desired
serving-Shows f t q now raw c o known named shown = (
  build_intent_view (serving f t q) now c,
  rw (fleet_member-named f raw c known named) refl,
  refl,
  shown,
)

-- What a request for an intent leaves of the store, for a member of the fleet.
set_intent-member :
    (f : Fleet) (t : Tracker) (p : Store) (now : ℕ) (raw c : Text) (body : Option ActionField)
    → canonical_mac raw ≡ some c
    → is_empty (lookup_machine f c).name ≡ false
    → set_intent (serving f t p) now raw body ≡ set_field (serving f t p) p now c body
unfolding set_intent ready_intent intent_for
set_intent-member f t p now raw c body known named =
    rw (fleet_member-named f raw c known named) refl

set_field-null :
    (s : Server) (p : Store) (now : ℕ) (c : Text)
    → (set_field s p now c (some null)).0 ≡ record s { pending = some (cancel p c).0 }
unfolding set_field set_action text_eq
set_field-null s p now c = refl

status-cancel_self :
    (p : Store) (now : ℕ) (c : Text) → canonical_mac c ≡ some c → status (cancel p c).0 now c ≡ none
unfolding spells names
status-cancel_self p now c own = status-cancel p now c c c own ∙ rw (own, text_eq_refl c) refl

-- In fleet mode, for a machine that has a name in the fleet and under any two spellings of its
-- address: after a request to install or to rescue it, a request for its intent shows this action
-- as long as it has not expired; and after a request that clears its intent, it shows none.
pub set_intent-get_intent :
    (f : Fleet) (t : Tracker) (p : Store) (now now' : ℕ) (raw raw' c : Text) (a : Action)
    → canonical_mac raw ≡ some c
    → canonical_mac raw' ≡ some c
    → is_empty (lookup_machine f c).name ≡ false
    → (is_positive p.ttl ≡ false) ⊎ (now' < add_duration now p.ttl)
    → Shows
        (set_intent (serving f t p) now raw (some (text_action (action_text a)))).0
        now'
        raw'
        c
        (some a)
      × Shows (set_intent (serving f t p) now raw (some null)).0 now' raw' c none
set_intent-get_intent f t p now now' raw raw' c a known known' named alive =
    let own : canonical_mac c ≡ some c = canonical_mac_idempotent raw c known in
    (
      rw
          (
            set_intent-member f t p now raw c (some (text_action (action_text a))) known named,
            set_field-queue (serving f t p) p now c a own,
          )
          (serving-Shows f t (queue p now c a).0 now' raw' c (some a) known' named
            (action-queue p now now' c c c a own own alive)),
      rw
          (
            set_intent-member f t p now raw c (some null) known named,
            set_field-null (serving f t p) p now c,
          )
          (serving-Shows f t (cancel p c).0 now' raw' c none known' named
            (ap (Option.map (λ (st : Status). st.action)) (status-cancel_self p now' c own))),
    )
