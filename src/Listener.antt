-- ===== src/Listener.antt =====
-- internal/proxydhcp/listener.go: what the listener does with a packet, and the hint for a client
-- that got an offer and fetched nothing.
pub mod Hints
pub mod Tests
use pxe_beacon.Base.{
  ℕ, ◌==◌, Bool, true, false, not, ◌&&◌, Option, none, some, List, [], ◌∷◌, if◌then◌else◌, is_empty,
  is_some, is_positive, ℤ, Text, Map, lookup, insert, delete,
}
use pxe_beacon.Fleet.{Fleet}
use pxe_beacon.Tracker.{Event, firmware_dhcp, ipxe_dhcp, Tracker, note}
use pxe_beacon.ProxyDhcp.{
  Stage, no_stage, firmware_tftp, firmware_http, ipxe_script, skip_stage, Decision, Reply,
  OfferError, Outcome,
}

-- The offers that wait for a fetch, with the time at which each was sent, and the timeout.
pub record Listener : Type 0 where
  pub follow_up_timeout : ℤ
  pub broadcast_reply : Option Bool
  pub pending : Map ℕ

unfoldable pub broadcast_reply_or_default : Option Bool → Bool
broadcast_reply_or_default none = true
broadcast_reply_or_default (some b) = b

-- `NoteServed`
unfoldable pub note_served : Map ℕ → Text → Map ℕ
note_served pending tag =
    if is_empty tag
    then pending
    else if is_some (lookup tag pending)
    then delete tag pending
    else []

-- The part of `notePending` before the goroutine: what is recorded for an offer.
unfoldable pub note_pending : ℤ → ℕ → Text → Map ℕ → Map ℕ
note_pending timeout now mac pending =
    if is_positive timeout && not (is_empty mac) then insert mac now pending else pending

abbrev pub is_sent_at : ℕ → Option ℕ → Bool
is_sent_at sent none = false
is_sent_at sent (some t) = t == sent

-- The goroutine of an offer when it wakes: whether it gives the hint, and what it leaves.
unfoldable pub wake : Text → ℕ → Map ℕ → Map ℕ × Bool
wake mac sent pending =
    let fires = is_sent_at sent (lookup mac pending) in
    (if fires then delete mac pending else pending, fires)

pub data Source : Type 0 where
  udp_67 udp_4011 : Source

-- Where a reply goes: to 255.255.255.255:68, or back to the sender.
pub data Destination : Type 0 where
  broadcast_68 : Destination
  peer : Text → Destination

unfoldable pub destination : Listener → Source → Text → Destination
unfolding broadcast_reply_or_default
destination l udp_67 from =
    if broadcast_reply_or_default l.broadcast_reply then broadcast_68 else peer from
destination l udp_4011 from = peer from

unfoldable pub stage_event : Stage → Option Event
stage_event firmware_tftp = some firmware_dhcp
stage_event firmware_http = some firmware_dhcp
stage_event ipxe_script = some ipxe_dhcp
stage_event no_stage = none
stage_event skip_stage = none

unfoldable pub note_stage : Option Tracker → Option Fleet → ℕ → Text → Option Event → Option Tracker
note_stage (some t) fleet now mac (some ev) = some (note t fleet now mac ev)
note_stage t fleet now mac ev = t

-- What handling a packet leaves: where the reply was sent, if it was, the listener and the tracker.
pub record Handled : Type 0 where
  pub sent : Option Destination
  pub listener : Listener
  pub tracker : Option Tracker

module _ (l : Listener) (t : Option Tracker) (fleet : Option Fleet) (now : ℕ) where
  abbrev untouched : Handled
  untouched = record { sent = none; listener = l; tracker = t }

  unfoldable pub after_send : Source → Text → Decision → Handled
  unfolding destination note_pending note_stage stage_event
  after_send source from dec = record {
    sent = some (destination l source from);
    listener = record l { pending = note_pending l.follow_up_timeout now dec.client_mac l.pending };
    tracker = note_stage t fleet now dec.client_mac (stage_event dec.stage);
  }

  -- `handleOne`, with the outcome of `BuildOffer`, the sender, absent when it is not a UDP address,
  -- and whether the write succeeded.
  unfoldable pub handle_one : Source → Outcome → Option Text → Bool → Handled
  unfolding after_send
  handle_one source out none written = untouched
  handle_one source out (some from) written = elim out.error [
    | some e ↦ untouched
    | none ↦ if written then after_send source from out.decision else untouched
  ]
