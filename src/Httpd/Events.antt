-- ===== src/Httpd/Events.antt =====
-- notePhase of internal/httpd/httpd.go with the guards of internal/proxydhcp: what an installation
-- event changes, and what the machine's firmware is then told.
use pxe_beacon.Base.{
  ℕ, ◌≤◌, ◌≡◌, refl, ◌∙◌, ◌⊎◌, inl, inr, true, false, ◌&&◌, Option, none, some, if◌then◌else◌,
  is_some, is_empty, [], ◌∷◌, Bool-cases, Text, text_eq_refl, lookup,
}
use mathlib.Core.Option
use pxe_beacon.Mac.{canonical_mac, mac_code}
use pxe_beacon.Mac.Canonical.{names, spells, canonical_mac_idempotent}
use pxe_beacon.Pending.{Store, status, is_pending}
use pxe_beacon.Pending.Cancelling.{status-known, status-cancel, is_pending-later}
use pxe_beacon.Fleet.{Fleet}
use pxe_beacon.Tracker.{
  Event, no_event, firmware_dhcp, firmware_fetched, ipxe_dhcp, user_data_fetched, installer_failed,
  installer_done, rank, is_failed, advanced, Tracker, note, state_of, last_event, event_code,
}
use pxe_beacon.Tracker.Progress.{state_of-note_entry, last_event-known}
use pxe_beacon.ProxyDhcp.{skip_already_deployed, Arch, Request, Ip, Config}
use pxe_beacon.ProxyDhcp.Offer.{
  machine_known, machine_name, default_user_class, calls, was_installed, guard, build_offer,
}
use pxe_beacon.ProxyDhcp.Gate.{IsUsable, is_ipxe, guard_complete, build_offer_iff}
use pxe_beacon.Httpd.{
  Server, is_install, cancel_install, note_phase, note_event, event_for, phase_event,
  handle_install_event,
}

-- After an installation that was reported as done at the time `now`, a machine has the status at
-- every time that it had before, but for the machine itself, which has none if an installation was
-- pending for it then: a pending rescue stays.
pub status-cancel_install :
    (s : Store) (now now' : ℕ) (mac mac' c : Text)
    → canonical_mac mac' ≡ some c
    → status (cancel_install s now mac) now' mac'
      ≡ (if is_install (status s now mac) && spells mac c then none else status s now' mac')
unfolding cancel_install
status-cancel_install s now now' mac mac' c known =
    elim (Bool-cases (is_install (status s now mac))) [
      | inl e ↦ rw e (status-cancel s now' mac mac' c known)
      | inr e ↦ rw e refl
    ]

is_pending-cancel_install :
    (s : Store) (now now' : ℕ) (mac mac' c : Text)
    → canonical_mac mac ≡ some c
    → canonical_mac mac' ≡ some c
    → now ≤ now'
    → (is_pending s now mac ≡ false) ⊎ (is_install (status s now mac) ≡ true)
    → is_pending (cancel_install s now mac) now' mac' ≡ false
unfolding is_pending spells names
is_pending-cancel_install s now now' mac mac' c known known' h (inr e) =
    rw (status-cancel_install s now now' mac mac' c known', e, known, text_eq_refl c) refl
is_pending-cancel_install s now now' mac mac' c known known' h (inl e) =
    let later = is_pending-later s now now' mac mac' c known known' h e in
    elim (Bool-cases (is_install (status s now mac) && spells mac c)) [
      | inl t ↦ rw (status-cancel_install s now now' mac mac' c known', t) refl
      | inr t ↦ rw (status-cancel_install s now now' mac mac' c known', t) later
    ]

advanced-done : (state : Event) → advanced state installer_done ≡ installer_done
unfolding advanced rank is_failed
advanced-done no_event = refl
advanced-done firmware_dhcp = refl
advanced-done firmware_fetched = refl
advanced-done ipxe_dhcp = refl
advanced-done user_data_fetched = refl
advanced-done installer_done = refl
advanced-done installer_failed = refl

last_event-done :
    (t : Tracker) (fleet : Option Fleet) (now : ℕ) (mac mac' c : Text)
    → canonical_mac mac ≡ some c
    → canonical_mac mac' ≡ some c
    → last_event (note t fleet now mac installer_done) mac' ≡ installer_done
unfolding note names
last_event-done t fleet now mac mac' c known known' =
    last_event-known (note t fleet now mac installer_done) mac' c known'
    ∙ state_of-note_entry t fleet now installer_done (canonical_mac mac) c
    ∙ rw (known, text_eq_refl c) (advanced-done (state_of (lookup c t.machines)))

-- The configuration of the responder as the program wires it to the server's stores, the pending
-- one at the time `now`.
unfoldable pub wired : Config → ℕ → Server → Config
wired cfg now s = record cfg {
  pending = Option.map (λ p. is_pending p now) s.pending;
  last_event = Option.map last_event s.tracker;
}

no_reply {ℓ} : {A : Type ℓ} (o : Option A) → (is_some o ≡ true → ⊥) → o ≡ none
no_reply none h = refl
no_reply (some a) h = absurd (h refl)

pub empty_unknown : (raw c : Text) → is_empty raw ≡ true → canonical_mac raw ≡ some c → ⊥
unfolding mac_code
empty_unknown [] c e known = cc
empty_unknown (b ∷ raw) c e known = cc

same_status :
    (p : Store) (now : ℕ) (raw c : Text)
    → canonical_mac raw ≡ some c
    → canonical_mac c ≡ some c
    → (is_pending p now raw ≡ false) ⊎ (is_install (status p now raw) ≡ true)
    → (is_pending p now c ≡ false) ⊎ (is_install (status p now c) ≡ true)
unfolding is_pending
same_status p now raw c known own h =
    rw (status-known p now c c own) (rw (status-known p now raw c known) at h)

guarded_silent :
    (arch_string : Arch → Text) (copy : Request → Option Text) (cfg : Config) (ip : Ip) (v4 : Text)
    (port now : ℕ) (s : Server) (req : Request)
    → IsUsable cfg ip v4 port
    → is_ipxe cfg req ≡ false
    → guard (wired cfg now s) req ≡ some skip_already_deployed
    → (build_offer arch_string copy (wired cfg now s) (some req)).reply ≡ none
unfolding wired default_user_class
guarded_silent arch_string copy cfg ip v4 port now s req u firmware stopped =
    let usable : IsUsable (wired cfg now s) ip v4 port = record {
      address = u.address;
      address_v4 = u.address_v4;
      port_given = u.port_given;
      port_fits = u.port_fits;
    } in
    no_reply _
      (λ (replied : is_some (build_offer arch_string copy (wired cfg now s) (some req)).reply
          ≡ true).
        elim ((build_offer_iff arch_string copy (wired cfg now s) ip v4 port req usable).0
          replied).let_through [
            | inl i ↦ cc
            | inr l ↦
                (let free : guard (wired cfg now s) req ≡ none =
                    guard_complete (wired cfg now s) req l in
                  cc)
          ])

-- The server in fleet mode.
abbrev pub serving : Fleet → Tracker → Store → Server
serving f t p = record { fleet = some f; tracker = some t; pending = some p }

handle_install_event-done :
    (f : Fleet) (t : Tracker) (p : Store) (now : ℕ) (raw c phase : Text)
    → canonical_mac raw ≡ some c
    → phase_event phase ≡ some installer_done
    → (handle_install_event (serving f t p) now raw phase).0
      ≡ serving f (note t (some f) now c installer_done) (cancel_install p now c)
unfolding handle_install_event event_for note_event note_phase event_code
handle_install_event-done f t p now raw c phase known done = elim (Bool-cases (is_empty raw)) [
  | inl e ↦ absurd (empty_unknown raw c e known)
  | inr e ↦ rw (e, known, event_for, done) refl
]

guard-done :
    (cfg : Config) (f : Fleet) (t : Tracker) (p : Store) (now : ℕ) (req : Request)
    → machine_known cfg req ≡ true
    → is_pending p now req.client_mac ≡ false
    → last_event t req.client_mac ≡ installer_done
    → guard (wired cfg now (serving f t p)) req ≡ some skip_already_deployed
unfolding guard wired machine_known machine_name calls was_installed event_code
guard-done cfg f t p now req named idle done = rw (named, idle, done) refl

-- Once the installation of a machine with a name in the fleet has been reported as done, while
-- nothing was pending for it or an installation was, each later request of its firmware meets the
-- guard against installing it again and gets no reply, if nothing else changes in between.
pub done_not_answered :
    (arch_string : Arch → Text) (copy : Request → Option Text) (cfg : Config) (ip : Ip) (v4 : Text)
    (port : ℕ) (f : Fleet) (t : Tracker) (p : Store) (now now' : ℕ) (raw c phase : Text)
    (req : Request)
    → IsUsable cfg ip v4 port
    → canonical_mac raw ≡ some c
    → canonical_mac req.client_mac ≡ some c
    → phase_event phase ≡ some installer_done
    → now ≤ now'
    → (is_pending p now raw ≡ false) ⊎ (is_install (status p now raw) ≡ true)
    → machine_known cfg req ≡ true
    → is_ipxe cfg req ≡ false
    → (guard (wired cfg now' (handle_install_event (serving f t p) now raw phase).0) req
        ≡ some skip_already_deployed)
      × ((build_offer arch_string copy
            (wired cfg now' (handle_install_event (serving f t p) now raw phase).0)
            (some req)).reply
          ≡ none)
done_not_answered arch_string copy cfg ip v4 port f t p now now' raw c phase req u known known' done
      h before named firmware =
    let own : canonical_mac c ≡ some c = canonical_mac_idempotent raw c known in
    let after = handle_install_event-done f t p now raw c phase known done in
    let stopped =
      guard-done cfg f (note t (some f) now c installer_done) (cancel_install p now c) now' req
        named
        (is_pending-cancel_install p now now' c req.client_mac c own known' h
          (same_status p now raw c known own before))
        (last_event-done t (some f) now c req.client_mac c own known') in
    rw after (stopped, guarded_silent arch_string copy cfg ip v4 port now' _ req u firmware stopped)
