-- ===== src/Boot/Tests.antt =====
-- The dispatch script for a small fleet, and the theorems about it there.
use pxe_beacon.Base.{
  ◌≡◌, refl, Bool, true, false, if◌then◌else◌, none, some, List, [], ◌∷◌, ◌++◌, Text, bytes,
  text_eq, pos, lookup, int_text, sort_by, insert_by, replace_byte, text_lt,
}
use pxe_beacon.Mac.{mac_code}
use pxe_beacon.Mac.Canonical.{IsCanonical, canonical_mac-IsCanonical}
use pxe_beacon.Fleet.{Profile, Fleet, menu_profile, valid_boot_target}
use pxe_beacon.Fleet.Loaded.{IsValid}
use pxe_beacon.Boot.Script.{
  sprintf, Line, is_word_byte, is_plain_from, is_plain, is_readable, labels, after_label, taken,
  follow,
}
use pxe_beacon.Boot.Labels.{is_label_byte, label_bytes, label_of}
use pxe_beacon.Boot.Arms.{
  DispatchContext, error_blocks, rescue_arm, debian_12_arm, debian_13_arm, kickstart_arm,
  redhat_arm, ubuntu_arm, custom_arm, menu_arm, unknown_arm, target_arm,
}
use pxe_beacon.Boot.Block.{menu_lines, boot_lines, booted_arm, block_body, machine_block}
use pxe_beacon.Boot.Dispatch.{
  arch_lines, welcome_lines, head_lines, netmask_lines, table_head, match_lines, match_table,
  table_end, machine_blocks, tail_lines, sorted_machines, dispatch_of, dispatch_lines,
}
use pxe_beacon.Boot.Readable.{IsPlainContext, IsPlainFleet}
use pxe_beacon.Boot.Table.{arm_label}
use pxe_beacon.Boot.Reach.{has_text, all_distinct, block_of, dispatch_lines-reaches}

boot_code : Unit {0}
unfolding is_word_byte is_plain_from is_plain is_readable text_eq lookup sort_by insert_by
    replace_byte text_lt labels after_label taken follow is_label_byte label_bytes label_of
    error_blocks rescue_arm debian_12_arm debian_13_arm kickstart_arm redhat_arm ubuntu_arm
    custom_arm menu_arm unknown_arm target_arm menu_lines boot_lines booted_arm block_body
    machine_block arch_lines welcome_lines head_lines netmask_lines table_head match_lines
    match_table table_end machine_blocks tail_lines sorted_machines dispatch_of dispatch_lines
    arm_label has_text all_distinct
boot_code = tt

abbrev kube : Text
kube = bytes "58:47:ca:70:c7:c9"

abbrev node : Text
node = bytes "00:47:ca:70:c7:c9"

abbrev kube_profile : Profile
kube_profile = record menu_profile {
  boot = bytes "ubuntu-24.04";
  name = bytes "kube-1";
  is_default = false;
}

abbrev node_profile : Profile
node_profile = record menu_profile {
  boot = bytes "debian-12";
  name = bytes "kube_1";
  is_default = false;
}

abbrev menu_only : Profile
menu_only = record menu_profile { name = bytes "lab"; is_default = false }

abbrev lab : Fleet
lab = record {
  path = [];
  base_dir = [];
  machines = (kube, kube_profile) ∷ (node, menu_only) ∷ [];
  defaults = menu_profile;
}

abbrev twins : Fleet
twins = record {
  path = [];
  base_dir = [];
  machines = (kube, kube_profile) ∷ (node, node_profile) ∷ [];
  defaults = menu_profile;
}

abbrev ctx : DispatchContext
ctx = record {
  advertised_ip = bytes "10.0.0.2";
  http_port = pos 8080;
  client_netmask = [];
  rescue_armed = none;
}

abbrev quote : Text → Text
quote t = t

-- Two machines whose names differ in a byte that labels do not keep have one label, and the first
-- of them in the order of addresses answers it.
twins_share : label_of kube kube_profile.name ≡ label_of node node_profile.name
unfolding boot_code
twins_share = refl

twins_distinct : all_distinct (labels (dispatch_lines ctx quote (some twins))) ≡ false
unfolding boot_code
twins_distinct = refl

lab_distinct : all_distinct (labels (dispatch_lines ctx quote (some lab))) ≡ true
unfolding boot_code
lab_distinct = refl

lab_kube : lookup kube lab.machines ≡ some kube_profile
unfolding boot_code
lab_kube = refl

kube-IsCanonical : IsCanonical kube
unfolding mac_code
kube-IsCanonical = canonical_mac-IsCanonical kube kube refl

node-IsCanonical : IsCanonical node
unfolding mac_code
node-IsCanonical = canonical_mac-IsCanonical node node refl

lab-IsValid : IsValid lab
unfolding boot_code
lab-IsValid = record {
  unique = (refl, (refl, tt));
  canonical = (kube-IsCanonical, (node-IsCanonical, tt));
}

ctx-IsPlainContext : IsPlainContext ctx
unfolding boot_code sprintf int_text
ctx-IsPlainContext = record { address = refl; netmask = refl }

lab-IsPlainFleet : IsPlainFleet lab.machines
unfolding boot_code valid_boot_target
lab-IsPlainFleet = (refl, refl, refl, (refl, refl, refl, tt))

-- Names that are no words for iPXE.
names_apart :
    (is_plain (bytes "x\ngoto target_default\ny") ≡ false)
    × (is_plain (bytes "a && goto target_default ||") ≡ false)
    × (is_plain (bytes "${net0/mac}") ≡ false)
    × (is_plain (bytes "-x") ≡ false)
    × (is_plain (bytes "kube-1.lab (rack 2)") ≡ true)
unfolding boot_code
names_apart = (refl, refl, refl, refl, refl)

-- The settings of the machine `kube`, and an architecture and a network that are served.
abbrev kube_settings : Text → Text
kube_settings setting =
    if text_eq setting (bytes "net0/mac:hexhyp") then bytes "58-47-ca-70-c7-c9" else []

abbrev no_failure : Text → Bool
no_failure condition = false

kube_label : arm_label lab.machines kube ≡ bytes "m_kube_1"
unfolding boot_code
kube_label = refl

dispatch_lines-reaches_example :
    (after : List Line) × (after_label
        (label_of kube kube_profile.name)
        (dispatch_lines ctx quote (some lab))
      ≡ some (block_of ctx quote kube kube_profile ++ after))
dispatch_lines-reaches_example =
    dispatch_lines-reaches ctx quote lab kube kube_profile lab-IsValid ctx-IsPlainContext
      lab-IsPlainFleet lab_kube lab_distinct
