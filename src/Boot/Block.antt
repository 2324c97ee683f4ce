-- ===== src/Boot/Block.antt =====
-- writeMachineBlock of internal/boot/dispatch.go.
use pxe_beacon.Base.{
  Bool, List, [], ◌∷◌, ◌++◌, if◌then◌else◌, is_empty, Text, text, bytes, int_text,
}
use pxe_beacon.Fleet.{Machine}
use pxe_beacon.Boot.Script.{sprintf, Line, say, print, label, jump, item}
use pxe_beacon.Boot.Labels.{label_of}
use pxe_beacon.Boot.Arms.{DispatchContext, rescue_arm, target_arm}

module _ (ctx : DispatchContext) (m : Machine) (rescue : Bool) where
  -- The name for the console, and what is said to be booted.
  abbrev pub shown_name : Text
  shown_name = if is_empty m.profile.name then m.mac else m.profile.name

  abbrev pub shown_target : Text
  shown_target = if rescue then text "systemrescue (RESCUE)" else m.profile.boot

  abbrev addr : Text
  addr = sprintf "%s:%d" (ctx.advertised_ip ∷ int_text ctx.http_port ∷ [])

  -- What stands behind the machine's label: the menu, then the boot of the target.
  unfoldable pub menu_lines : Text → List Line
  menu_lines own =
      let name = shown_name in
      let target = shown_target in
      say (text "echo")
      ∷ print (text "echo ===== [stage 4/5] MATCHED ARM: ") name (text " =====")
      ∷ say (sprintf "echo   fleet target: %s" (target ∷ []))
      ∷ say (sprintf "echo   mac: %s" (m.mac ∷ []))
      ∷ print (sprintf "chain --autofree http://%s/debug/probe/matched/" (addr ∷ [])) name
          (text " || echo   (phone-home failed)")
      ∷ say (text "sleep 2")
      ∷ say []
      ∷ print (text "menu pxe-beacon — ") name (sprintf " (%s)" (m.mac ∷ []))
      ∷ say (sprintf "item --gap fleet config: boot=%s" (target ∷ []))
      ∷ item (text "item --default --key b ") (own ++ bytes "_boot")
          (sprintf "         Boot fleet target (default — auto in 30s): %s" (target ∷ []))
      ∷ item (text "item            --key m ") (bytes "menu_netbootxyz")
          (text "   netboot.xyz menu (manual OS picker)")
      ∷ item (text "item            --key s ") (own ++ bytes "_shell")
          (text "       iPXE shell (debug)")
      ∷ say (
          sprintf
            "echo pxe-beacon: press 'b' to boot %s now, 'm' for netboot.xyz menu, 's' for shell — or wait 30s"
            (target ∷ []))
      ∷ say (sprintf "choose --timeout 30000 --default %s_boot %s_menu_choice ||" (own ∷ own ∷ []))
      ∷ say
          (text "echo pxe-beacon: choose returned error (Ctrl+C?), defaulting to boot fleet target")
      ∷ say (sprintf "echo pxe-beacon: ===== menu choice: ${%s_menu_choice} =====" (own ∷ []))
      ∷ say (
          sprintf
            "chain --autofree http://%s/debug/probe/menu-choice/${%s_menu_choice} || echo   (phone-home failed)"
            (addr ∷ own ∷ []))
      ∷ say (text "sleep 2")
      ∷ say (sprintf "goto ${%s_menu_choice}" (own ∷ []))
      ∷ say []
      ∷ label (own ++ bytes "_shell")
      ∷ say (text "echo pxe-beacon: dropping to iPXE shell. Type 'exit' to return to the menu.")
      ∷ say (text "shell")
      ∷ jump [] own
      ∷ say []
      ∷ []

  unfoldable pub boot_lines : Text → List Line
  boot_lines own =
      let target = shown_target in
      label (own ++ bytes "_boot")
      ∷ say (text "echo")
      ∷ say (sprintf "echo ===== [stage 5/5] BOOTING %s =====" (target ∷ []))
      ∷ say (text "echo   ip      = ${ip}")
      ∷ say (text "echo   netmask = ${netmask}")
      ∷ say (text "echo   gateway = ${gateway}")
      ∷ say (text "echo   dns     = ${dns}")
      ∷ say (
          sprintf "chain --autofree http://%s/debug/probe/booting/%s || echo   (phone-home failed)"
            (addr ∷ target ∷ []))
      ∷ say (text "sleep 2")
      ∷ say (text "imgfree")
      ∷ []

  unfoldable pub booted_arm : (Text → Text) → Text → List Line
  unfolding rescue_arm target_arm
  booted_arm quote own =
      if rescue then rescue_arm ctx m own else target_arm ctx m quote own shown_name

  unfoldable pub block_body : (Text → Text) → Text → List Line
  unfolding menu_lines boot_lines booted_arm
  block_body quote own = menu_lines own ++ (boot_lines own ++ booted_arm quote own)

  unfoldable pub machine_block : (Text → Text) → List Line
  unfolding block_body label_of
  machine_block quote =
      let own = label_of m.mac m.profile.name in say [] ∷ label own ∷ block_body quote own
