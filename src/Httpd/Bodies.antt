-- ===== src/Httpd/Bodies.antt =====
-- handleInstallEvent and parseEventPhase of internal/httpd/httpd.go: an installation event whose
-- body cannot be decoded, and the guards of internal/proxydhcp/proxydhcp.go after it.
use pxe_beacon.Base.{ℕ, ◌≤◌, ◌≡◌, refl, ◌⊎◌, true, false, Option, none, some, [], take, Text}
use pxe_beacon.Mac.{canonical_mac}
use pxe_beacon.Pending.{Store, status, is_pending}
use pxe_beacon.Fleet.{Fleet}
use pxe_beacon.Tracker.{Tracker}
use pxe_beacon.ProxyDhcp.{Arch, Ip, Config, Request, skip_already_deployed}
use pxe_beacon.ProxyDhcp.Offer.{machine_known, guard, build_offer}
use pxe_beacon.ProxyDhcp.Gate.{IsUsable, is_ipxe}
use pxe_beacon.Httpd.{is_install, phase_event}
use pxe_beacon.Httpd.Events.{wired, serving, done_not_answered}
use pxe_beacon.Httpd.Machines.{require_json}
use pxe_beacon.Httpd.Reading.{parse_event_phase, handle_event_body}

-- An event for a machine with a name in the fleet, while nothing was pending for it or an
-- installation was, whose JSON body has no phase in its first 8192 bytes, be it missing, malformed
-- or cut, says that the installation is done, whatever was meant: each later request of the
-- firmware meets the guard against installing it again and gets no reply, if nothing else changes
-- in between.
pub unread_event_not_answered :
    (phase_in : Text → Text) (arch_string : Arch → Text) (copy : Request → Option Text)
    (cfg : Config) (ip : Ip) (v4 : Text) (port : ℕ) (f : Fleet) (t : Tracker) (p : Store)
    (now now' : ℕ) (raw c content_type body form : Text) (req : Request)
    → IsUsable cfg ip v4 port
    → canonical_mac raw ≡ some c
    → canonical_mac req.client_mac ≡ some c
    → require_json content_type ≡ true
    → phase_in (take 8192 body) ≡ []
    → now ≤ now'
    → (is_pending p now raw ≡ false) ⊎ (is_install (status p now raw) ≡ true)
    → machine_known cfg req ≡ true
    → is_ipxe cfg req ≡ false
    → (guard
          (wired cfg now'
            (handle_event_body phase_in (serving f t p) now raw content_type body form).0)
          req
        ≡ some skip_already_deployed)
      × ((build_offer arch_string copy
            (wired cfg now'
              (handle_event_body phase_in (serving f t p) now raw content_type body form).0)
            (some req)).reply
          ≡ none)
unfolding handle_event_body parse_event_phase phase_event
unread_event_not_answered phase_in arch_string copy cfg ip v4 port f t p now now' raw c content_type
      body form req usable known known' json unread later idle member firmware =
    rw (json, unread)
      (done_not_answered arch_string copy cfg ip v4 port f t p now now' raw c [] req usable known
        known' refl later idle member firmware)
