-- ===== src/Httpd/Intents.antt =====
-- handleAPISetIntent of internal/httpd/api.go: what a refused request leaves, and what is pending
-- after an accepted one.
use pxe_beacon.Base.{
  ℕ, ◌<◌, ◌≡◌, refl, ap, ◌⊎◌, inl, inr, false, Option, none, some, [], arith, is_empty, is_positive,
  add_duration, Bool-cases, Text, bytes, text_eq, Result, ok, err,
}
use pxe_beacon.Mac.{canonical_mac}
use mathlib.Core.Option
use pxe_beacon.Pending.{
  Action, install, rescue, Store, Status, status, queue, queue_entry, install_machine,
  rescue_machine,
}
use pxe_beacon.Pending.Queueing.{action-queue}
use pxe_beacon.Mac.Canonical.{canonical_mac_idempotent}
use pxe_beacon.Httpd.Events.{serving, empty_unknown}
use pxe_beacon.Fleet.{Fleet, lookup_machine, is_text}
use pxe_beacon.Tracker.{Tracker}
use pxe_beacon.Httpd.{
  Server, ErrorCode, Response, accepted, refused, ActionField, missing, null, not_text, text_action,
  stored, set_action, set_field, canonical_member, fleet_member, intent_for, ready_intent,
  set_intent, fleet_ready,
}

-- A refused request leaves the server as it was.
abbrev KeepsIfRefused : Server → Server × Response → ℕ → ErrorCode → Type 0
KeepsIfRefused s r code e = r.1 ≡ refused code e → r.0 ≡ s

module _ (s : Server) (code : ℕ) (e : ErrorCode) where
  stored_refused : (r : Store × Option ℕ) → KeepsIfRefused s (stored s r) code e
  stored_refused (p, none) h = refl
  stored_refused (p, some x) h = cc

  set_action_refused :
      (p : Store) (now : ℕ) (mac action : Text)
      → KeepsIfRefused s (set_action s p now mac action) code e
  unfolding set_action
  set_action_refused p now mac action h = elim (Bool-cases (is_text action "install")) [
    | inl a ↦ rw a (stored_refused _ (rw a at h))
    | inr a ↦ elim (Bool-cases (is_text action "rescue")) [
      | inl b ↦ rw (a, b) (stored_refused _ (rw (a, b) at h))
      | inr b ↦ elim (Bool-cases (is_empty action)) [
        | inl c ↦ absurd (ground (arith, a, b, c, h))
        | inr c ↦ rw (a, b, c) refl
      ]
    ]
  ]

  set_field_refused :
      (p : Store) (now : ℕ) (mac : Text) (body : Option ActionField)
      → KeepsIfRefused s (set_field s p now mac body) code e
  unfolding set_field
  set_field_refused p now mac none h = refl
  set_field_refused p now mac (some missing) h = refl
  set_field_refused p now mac (some null) h = set_action_refused p now mac [] h
  set_field_refused p now mac (some not_text) h = refl
  set_field_refused p now mac (some (text_action action)) h = set_action_refused p now mac action h

  intent_for_refused :
      (p : Store) (now : ℕ) (body : Option ActionField) (m : Result Response Text)
      → KeepsIfRefused s (intent_for s p now body m) code e
  unfolding intent_for
  intent_for_refused p now body (err refusal) h = refl
  intent_for_refused p now body (ok mac) h = set_field_refused p now mac body h

  ready_intent_refused :
      (now : ℕ) (raw : Text) (body : Option ActionField) (f : Option Fleet) (p : Option Store)
      → KeepsIfRefused s (ready_intent s now raw body f p) code e
  unfolding ready_intent
  ready_intent_refused now raw body none p h = refl
  ready_intent_refused now raw body (some f) none h = refl
  ready_intent_refused now raw body (some f) (some p) h =
      intent_for_refused p now body (fleet_member f raw) h

-- A request for an intent that is refused, for whatever reason, changes nothing.
pub set_intent_refused :
    (s : Server) (now : ℕ) (raw : Text) (body : Option ActionField) (code : ℕ) (e : ErrorCode)
    → (set_intent s now raw body).1 ≡ refused code e
    → (set_intent s now raw body).0 ≡ s
unfolding set_intent
set_intent_refused s now raw body code e h = elim (Bool-cases (fleet_ready s)) [
  | inl r ↦ rw r (ready_intent_refused s code e now raw body s.fleet s.pending (rw r at h))
  | inr r ↦ rw r refl
]

abbrev pub action_text : Action → Text
action_text install = bytes "install"
action_text rescue = bytes "rescue"

pub fleet_member-named :
    (f : Fleet) (raw c : Text)
    → canonical_mac raw ≡ some c
    → is_empty (lookup_machine f c).name ≡ false
    → fleet_member f raw ≡ ok c
unfolding fleet_member
fleet_member-named f raw c known named = elim (Bool-cases (is_empty raw)) [
  | inl e ↦ absurd (empty_unknown raw c e known)
  | inr e ↦ rw (e, known, canonical_member, named) refl
]

pub set_field-queue :
    (s : Server) (p : Store) (now : ℕ) (c : Text) (a : Action)
    → canonical_mac c ≡ some c
    → set_field s p now c (some (text_action (action_text a)))
      ≡ (record s { pending = some (queue p now c a).0 }, accepted)
unfolding set_field set_action text_eq install_machine rescue_machine queue queue_entry
set_field-queue s p now c install own = rw own refl
set_field-queue s p now c rescue own = rw own refl

-- In fleet mode, a request to install or to rescue a machine that has a name in the fleet is
-- accepted, and that action is then pending for the machine as long as it has not expired.
pub set_intent_queues :
    (f : Fleet) (t : Tracker) (p : Store) (now now' : ℕ) (raw c : Text) (a : Action)
    → canonical_mac raw ≡ some c
    → is_empty (lookup_machine f c).name ≡ false
    → (is_positive p.ttl ≡ false) ⊎ (now' < add_duration now p.ttl)
    → ((set_intent (serving f t p) now raw (some (text_action (action_text a)))).1 ≡ accepted)
      × (Option.map
            (λ (q : Store). Option.map (λ (st : Status). st.action) (status q now' raw))
            (set_intent (serving f t p) now raw (some (text_action (action_text a)))).0.pending
          ≡ some (some a))
unfolding set_intent ready_intent intent_for
set_intent_queues f t p now now' raw c a known named alive =
    let own : canonical_mac c ≡ some c = canonical_mac_idempotent raw c known in
    rw (fleet_member-named f raw c known named, set_field-queue (serving f t p) p now c a own)
      (refl, ap some (action-queue p now now' c raw c a own known alive))
