-- ===== src/InstallLog/Tests.antt =====
-- A run of the installer-log store, and the theorems at concrete inputs.
use pxe_beacon.Base.{◌≡◌, refl, ◌-◌, List, [], ◌∷◌, some, bytes, Text, length, drop, lookup, insert}
use pxe_beacon.Mac.{canonical_mac, mac_code}
use pxe_beacon.InstallLog.{empty, append, get, log_of, or_nil, trim, max_per_mac}
use pxe_beacon.InstallLog.Retained.{Call, appended, run, step, output, get-run}

abbrev node : Text
node = bytes "58:47:ca:70:c7:c9"

abbrev calls : List Call
calls = appended node (bytes "panic: ") ∷ appended (bytes "5847ca70c7c9") (bytes "no disk") ∷ []

node_known : canonical_mac node ≡ some node
unfolding mac_code
node_known = refl

whole_log : get (run empty calls) node ≡ bytes "panic: no disk"
unfolding get run step append empty mac_code lookup insert log_of or_nil trim
whole_log = refl

get-run_example :
    get (run empty calls) node
    ≡ drop (length (output node [] calls) - max_per_mac) (output node [] calls)
get-run_example = get-run calls node node node_known
