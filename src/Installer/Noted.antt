-- ===== src/Installer/Noted.antt =====
-- What a request for an installer document leaves, and the guards of
-- internal/proxydhcp/proxydhcp.go after it.
use pxe_beacon.Base.{
  ℕ, ◌≡◌, refl, ap, ◌∙◌, ◌⊎◌, inl, inr, Bool, true, false, Option, none, some, List, if◌then◌else◌,
  Bool-cases, is_empty, Text, lookup, Result, ok, err,
}
use mathlib.Core.Option
use pxe_beacon.Mac.{canonical_mac}
use pxe_beacon.Mac.Canonical.{names}
use pxe_beacon.Fleet.{Fleet, Profile, lookup_machine}
use pxe_beacon.Tracker.{
  Event, no_event, firmware_dhcp, firmware_fetched, ipxe_dhcp, user_data_fetched, installer_done,
  installer_failed, rank, is_failed, event_code, event_eq, advanced, Tracker, note, state_of,
  event_at, last_event,
}
use pxe_beacon.Tracker.Progress.{state_of-note_entry}
use pxe_beacon.ProxyDhcp.{Config, Request}
use pxe_beacon.ProxyDhcp.Offer.{machine_known, machine_name, was_installed, guard}
use pxe_beacon.Httpd.{Server, fleet_ready, note_wired}
use pxe_beacon.Httpd.Events.{wired}
use pxe_beacon.UserData
use pxe_beacon.UserData.{Settings, Vars, UserDataError}
use pxe_beacon.Installer.{
  PreseedVars, KickstartVars, RescueVars, InstallerError, Document, preseed_cfg, kickstart_cfg,
  meta_data, sysrescue_yaml, sysrescue_setup_sh, noted, document_for, serve_for, serve_document,
}

-- The server after a document was noted.
abbrev fetched : Server → ℕ → Text → Server
fetched server now mac = record server {
  tracker = note_wired server.tracker server.fleet now mac user_data_fetched;
}

-- Either nothing has changed, or the machine has fetched its document.
abbrev IsOutcome : Server → ℕ → Server → Type 0
IsOutcome server now after = (after ≡ server) ⊎ ((mac : Text) × (after ≡ fetched server now mac))

noted-IsOutcome :
    (server : Server) (now : ℕ) (mac : Text) (r : Result InstallerError Text)
    → IsOutcome server now (noted server now mac r).0
unfolding noted
noted-IsOutcome server now mac (err e) = inl refl
noted-IsOutcome server now mac (ok body) = inr (mac, refl)

advanced-fetched :
    (state : Event)
    → event_eq (advanced state user_data_fetched) installer_done ≡ event_eq state installer_done
unfolding advanced rank is_failed event_code
advanced-fetched no_event = refl
advanced-fetched firmware_dhcp = refl
advanced-fetched firmware_fetched = refl
advanced-fetched ipxe_dhcp = refl
advanced-fetched user_data_fetched = refl
advanced-fetched installer_done = refl
advanced-fetched installer_failed = refl

advanced_if :
    (b : Bool) (state : Event)
    → event_eq (if b then advanced state user_data_fetched else state) installer_done
      ≡ event_eq state installer_done
advanced_if true state = advanced-fetched state
advanced_if false state = refl

-- A machine that fetches a document counts as installed if it did before.
event_at-note :
    (t : Tracker) (f : Option Fleet) (now : ℕ) (mac : Text) (o : Option Text)
    → event_eq (event_at (note t f now mac user_data_fetched) o) installer_done
      ≡ event_eq (event_at t o) installer_done
unfolding event_at note
event_at-note t f now mac none = refl
event_at-note t f now mac (some c) =
    ap (λ (ev : Event). event_eq ev installer_done)
      (state_of-note_entry t f now user_data_fetched (canonical_mac mac) c)
    ∙ advanced_if (names (canonical_mac mac) c) (state_of (lookup c t.machines))

was_installed-note_wired :
    (t : Option Tracker) (f : Option Fleet) (now : ℕ) (mac mac' : Text)
    → was_installed (Option.map last_event (note_wired t f now mac user_data_fetched)) mac'
      ≡ was_installed (Option.map last_event t) mac'
unfolding was_installed last_event
was_installed-note_wired none f now mac mac' = refl
was_installed-note_wired (some t) f now mac mac' = event_at-note t f now mac (canonical_mac mac')

guard-outcome :
    (cfg : Config) (req : Request) (server after : Server) (now later : ℕ)
    → IsOutcome server now after
    → guard (wired cfg later after) req ≡ guard (wired cfg later server) req
unfolding guard wired machine_known machine_name
guard-outcome cfg req server after now later (inl same) = rw same refl
guard-outcome cfg req server after now later (inr (mac, e)) =
    rw (e, was_installed-note_wired server.tracker server.fleet now mac req.client_mac) refl

module _ (hmac : Text → Text → Text) (parse_ip : Text → Option (List ℕ))
    (embedded : Text → Option Text) (read : Text → Option Text)
    (render_preseed : Text → PreseedVars → Option Text)
    (render_kickstart : Text → KickstartVars → Option Text)
    (render_rescue : Text → RescueVars → Option Text) (s : Settings) (client_netmask : Text)
    (server : Server) (now : ℕ) where
  document_for-IsOutcome :
      (doc : Document) (mac : Text) (p : Profile)
      → IsOutcome server now
          (document_for hmac parse_ip embedded read render_preseed render_kickstart render_rescue s
            client_netmask doc server now mac p).0
  unfolding document_for
  document_for-IsOutcome preseed_cfg mac p = noted-IsOutcome server now mac _
  document_for-IsOutcome kickstart_cfg mac p = noted-IsOutcome server now mac _
  document_for-IsOutcome meta_data mac p = inl refl
  document_for-IsOutcome sysrescue_yaml mac p = inl refl
  document_for-IsOutcome sysrescue_setup_sh mac p = inl refl

  serve_for-IsOutcome :
      (doc : Document) (mac : Option Text) (f : Option Fleet)
      → IsOutcome server now
          (serve_for hmac parse_ip embedded read render_preseed render_kickstart render_rescue s
            client_netmask doc server now mac f).0
  unfolding serve_for
  serve_for-IsOutcome doc mac none = inl refl
  serve_for-IsOutcome doc none (some f) = inl refl
  serve_for-IsOutcome doc (some mac) (some f) =
      document_for-IsOutcome doc mac (lookup_machine f mac)

  serve_document-IsOutcome :
      (doc : Document) (raw : Text)
      → IsOutcome server now
          (serve_document hmac parse_ip embedded read render_preseed render_kickstart render_rescue
            s client_netmask doc server now raw).0
  unfolding serve_document
  serve_document-IsOutcome doc raw = elim (Bool-cases (fleet_ready server)) [
    | inr unready ↦ rw unready (inl refl)
    | inl ready ↦ elim (Bool-cases (is_empty raw)) [
      | inl e ↦ rw (ready, e) (inl refl)
      | inr e ↦ rw (ready, e) (serve_for-IsOutcome doc (canonical_mac raw) server.fleet)
    ]
  ]

  module _ (read_default : Option Text) (render_user_data : Text → Vars → Option Text)
      (is_map : Text → Bool) where
    user_data_noted-IsOutcome :
        (mac : Text) (r : Result UserDataError Text)
        → IsOutcome server now
            (UserData.noted hmac read read_default render_user_data is_map s server now mac r).0
    unfolding UserData.noted
    user_data_noted-IsOutcome mac (err e) = inl refl
    user_data_noted-IsOutcome mac (ok body) = inr (mac, refl)

    user_data_for-IsOutcome :
        (mac : Option Text) (f : Option Fleet)
        → IsOutcome server now
            (UserData.user_data_for hmac read read_default render_user_data is_map s server now mac
              f).0
    unfolding UserData.user_data_for
    user_data_for-IsOutcome mac none = inl refl
    user_data_for-IsOutcome none (some f) = inl refl
    user_data_for-IsOutcome (some mac) (some f) = user_data_noted-IsOutcome mac _

    user_data-IsOutcome :
        (raw : Text)
        → IsOutcome server now
            (UserData.user_data hmac read read_default render_user_data is_map s server now raw).0
    unfolding UserData.user_data
    user_data-IsOutcome raw = elim (Bool-cases (fleet_ready server)) [
      | inr unready ↦ rw unready (inl refl)
      | inl ready ↦ elim (Bool-cases (is_empty raw)) [
        | inl e ↦ rw (ready, e) (inl refl)
        | inr e ↦ rw (ready, e) (user_data_for-IsOutcome (canonical_mac raw) server.fleet)
      ]
    ]

    -- Whether the user-data is requested, or the preseed, the kickstart, the meta-data or a file of
    -- the rescue system, under whatever address, and whether it is served or refused: at every
    -- later time the guards of the firmware stage let the same requests through, and stop the
    -- others for the same reason, as if it had not been requested.
    pub serve_document-guard :
        (doc : Document) (raw : Text) (cfg : Config) (later : ℕ) (req : Request)
        → (guard
              (wired cfg later
                (serve_document hmac parse_ip embedded read render_preseed render_kickstart
                  render_rescue s client_netmask doc server now raw).0)
              req
            ≡ guard (wired cfg later server) req)
          × (guard
                (wired cfg later
                  (UserData.user_data hmac read read_default render_user_data is_map s server now
                    raw).0)
                req
              ≡ guard (wired cfg later server) req)
    serve_document-guard doc raw cfg later req = (
      guard-outcome cfg req server _ now later (serve_document-IsOutcome doc raw),
      guard-outcome cfg req server _ now later (user_data-IsOutcome raw),
    )
