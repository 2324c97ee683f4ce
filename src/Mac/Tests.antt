-- ===== src/Mac/Tests.antt =====
-- Runs of CanonicalMAC, and the theorems at concrete inputs.
use pxe_beacon.Base.{◌≡◌, refl, some, none, bytes}
use pxe_beacon.Mac.{canonical_mac, mac_code}

hyphens : canonical_mac (bytes "58-47-CA-70-C7-C9") ≡ some (bytes "58:47:ca:70:c7:c9")
unfolding mac_code
hyphens = refl

dots : canonical_mac (bytes "5847.ca70.c7c9") ≡ some (bytes "58:47:ca:70:c7:c9")
unfolding mac_code
dots = refl

no_separator : canonical_mac (bytes "58 47_ca70c7C9") ≡ some (bytes "58:47:ca:70:c7:c9")
unfolding mac_code
no_separator = refl

eight_bytes : canonical_mac (bytes "58:47:ca:70:c7:c9:00:01") ≡ none
unfolding mac_code
eight_bytes = refl
