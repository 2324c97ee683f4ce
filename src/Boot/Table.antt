-- ===== src/Boot/Table.antt =====
-- Where the dispatch script of internal/boot/dispatch.go sends a machine.
use pxe_beacon.Base.{◌≡◌, ◌≢◌, Bool, false, none, some, [], All, Text, text, bytes, Map, lookup}
use pxe_beacon.Fleet.{Profile, Fleet}
use pxe_beacon.Boot.Labels.{label_of}
use pxe_beacon.Boot.Arms.{hyphens}

abbrev NoHyphens : Text → Type 0
NoHyphens = All (λ b. b ≢ b'-')

-- The label that the machine with the canonical address `c` is sent to.
unfoldable pub arm_label : Map Profile → Text → Text
unfolding lookup label_of
arm_label machines c = elim (lookup c machines) [
  | none ↦ bytes "target_default"
  | some p ↦ label_of c p.name
]

-- What the settings of a client are: its first card has the address `c` and there is no other.
pub record IsClient (value_of : Text → Text) (c : Text) : Type 0 where
  pub first : value_of (bytes "net0/mac:hexhyp") ≡ hyphens c
  pub second : value_of (bytes "net1/mac:hexhyp") ≡ []
  pub third : value_of (bytes "net2/mac:hexhyp") ≡ []
  pub fourth : value_of (bytes "net3/mac:hexhyp") ≡ []

-- The conditional jumps that a client of a supported architecture that gets an address does not
-- take.
pub record IsSupported (holds : Text → Bool) : Type 0 where
  pub not_arm64 : holds (text "iseq ${buildarch} arm64 && ") ≡ false
  pub not_arm32 : holds (text "iseq ${buildarch} arm32 && ") ≡ false
  pub got_address : holds (text "dhcp || ") ≡ false
