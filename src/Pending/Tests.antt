-- ===== src/Pending/Tests.antt =====
-- Runs of the pending store, and the theorems at concrete inputs.
use pxe_beacon.Base.{
  ◌≡◌, refl, ◌↔◌, true, false, List, [], ◌∷◌, some, none, bytes, Text, pos, lookup, insert, delete,
}
use pxe_beacon.Mac.{canonical_mac, mac_code}
use pxe_beacon.Mac.Canonical.{names, spells}
use pxe_beacon.Pending.{install, Entry, empty, is_pending, queue, cancel, retain_only, size}
use pxe_beacon.Pending.History.{
  Call, queued, cancelled, run, step, intent, intent_step, IsLive, is_pending-run_iff,
}

pending_code : Unit {0}
unfolding mac_code run step intent intent_step spells names queue cancel retain_only is_pending
    empty size lookup insert delete
pending_code = tt

abbrev kube : Text
kube = bytes "58:47:ca:70:c7:c9"

abbrev calls : List Call
calls = queued 100 (bytes "58-47-CA-70-C7-C9") install ∷ cancelled (bytes "00:00:00:00:00:01") ∷ []

kube_known : canonical_mac kube ≡ some kube
unfolding mac_code
kube_known = refl

pending_at_149 : is_pending (run (empty (pos 50)) calls) 149 kube ≡ true
unfolding pending_code
pending_at_149 = refl

expired_at_150 : is_pending (run (empty (pos 50)) calls) 150 kube ≡ false
unfolding pending_code
expired_at_150 = refl

is_pending-run_iff_example :
    (is_pending (run (empty (pos 50)) calls) 149 kube ≡ true)
    ↔ ((e : Entry) × (intent kube none calls ≡ some e) × IsLive (pos 50) 149 e)
is_pending-run_iff_example = is_pending-run_iff (pos 50) calls 149 kube kube kube_known
