-- ===== src/Listener/Tests.antt =====
-- Offers and fetches at concrete inputs, and the theorem about them there.
use pxe_beacon.Base.{
  ◌≡◌, refl, true, false, none, [], ◌∷◌, List, Text, bytes, text_eq, lookup, insert, delete, pos, ℤ,
}
use pxe_beacon.Listener.{
  Listener, broadcast_reply_or_default, note_served, note_pending, wake, udp_67, broadcast_68,
  destination,
}
use pxe_beacon.Listener.Hints.{
  Step, offered, served, woken, step, run, has_colon, leaves, all_leave, hint_iff,
}

listener_code : Unit {0}
unfolding text_eq lookup insert delete broadcast_reply_or_default note_served note_pending wake
    destination step run has_colon leaves all_leave
listener_code = tt

abbrev node : Text
node = bytes "52:54:00:00:00:01"

abbrev other : Text
other = bytes "52:54:00:00:00:02"

abbrev timeout : ℤ
timeout = pos 30

abbrev before : List Step
before = offered 1 other ∷ served (bytes "tftp-anon") ∷ []

abbrev silence : List Step
silence = offered 12 other ∷ woken other 1 ∷ []

silence_hints : all_leave node 10 silence ≡ true
unfolding listener_code
silence_hints = refl

fetch_stays_silent : all_leave node 10 (offered 12 other ∷ served (bytes "http-anon") ∷ []) ≡ false
unfolding listener_code
fetch_stays_silent = refl

abbrev listener : Listener
listener = record { follow_up_timeout = timeout; broadcast_reply = none; pending = [] }

offers_are_broadcast : destination listener udp_67 (bytes "0.0.0.0:68") ≡ broadcast_68
unfolding listener_code
offers_are_broadcast = refl

hint_iff_example :
    (wake node 10 (run timeout silence (step timeout (offered 10 node) (run timeout before [])))).1
    ≡ all_leave node 10 silence
unfolding listener_code
hint_iff_example =
    hint_iff timeout before silence node 10 refl refl (refl, (refl, tt)) (refl, (tt, tt))
      (refl, (tt, tt))
