-- ===== src/Boot/Dispatch.antt =====
-- RenderDispatch of internal/boot/dispatch.go.
use pxe_beacon.Base.{
  Bool, false, Option, none, some, List, [], ◌∷◌, ◌++◌, if◌then◌else◌, is_empty, Text, text, bytes,
  int_text, text_lt, Map, sort_by,
}
use pxe_beacon.Fleet.{Profile, Machine, Fleet}
use pxe_beacon.Fleet.Saving.{as_machine}
use pxe_beacon.Boot.Script.{sprintf, Line, say, print, label, jump, on_match, script_text}
use pxe_beacon.Boot.Labels.{label_of}
use pxe_beacon.Boot.Arms.{DispatchContext, hyphens}
use pxe_beacon.Boot.Block.{machine_block}

unfoldable pub arch_lines : List Line
arch_lines =
    say (text "#!ipxe")
    ∷ say (text "# pxe-beacon dispatch — generated per request from fleet.yaml.")
    ∷ say []
    ∷ say (text "# v0.14.2: arch denylist — refuse arm only, fail open for x86.")
    ∷ jump (text "iseq ${buildarch} arm64 && ") (bytes "arch_refuse")
    ∷ jump (text "iseq ${buildarch} arm32 && ") (bytes "arch_refuse")
    ∷ jump [] (bytes "arch_ok")
    ∷ label (bytes "arch_refuse")
    ∷ say (text "echo")
    ∷ say (text "echo ===== UNSUPPORTED ARCH =====")
    ∷ say (text "echo pxe-beacon supports amd64/x86_64 only; got buildarch=${buildarch}")
    ∷ say (text "echo multi-arch tracked for a future release; rebooting in 30s")
    ∷ say (text "sleep 30")
    ∷ say (text "reboot")
    ∷ []

-- From the label that the architecture check ends with.
unfoldable pub welcome_lines : List Line
welcome_lines =
    label (bytes "arch_ok")
    ∷ say []
    ∷ say (text "echo ============================================================")
    ∷ say (
        text
          "echo  pxe-beacon dispatch (v0.8.1) — already-installed guard, ARM64 refuse, listener races fixed")
    ∷ say (text "echo ============================================================")
    ∷ say (text "echo")
    ∷ say (text "echo [stage 0/5] iPXE settings BEFORE dhcp")
    ∷ say (text "echo   net0/mac        = ${net0/mac}")
    ∷ say (text "echo   net0/mac:hexhyp = ${net0/mac:hexhyp}")
    ∷ say (text "echo   ip              = ${ip}")
    ∷ say (text "echo   netmask         = ${netmask}")
    ∷ say (text "echo   gateway         = ${gateway}")
    ∷ say (text "echo   dns             = ${dns}")
    ∷ say (text "echo   platform        = ${platform}")
    ∷ say (text "echo   buildarch       = ${buildarch}")
    ∷ say (text "sleep 2")
    ∷ say []
    ∷ say (text "echo [stage 1/5] running dhcp...")
    ∷ jump (text "dhcp || ") (bytes "top_fail_dhcp")
    ∷ say (text "echo   dhcp ok. assigned:")
    ∷ say (text "echo     ip      = ${ip}")
    ∷ say (text "echo     netmask = ${netmask}")
    ∷ say (text "echo     gateway = ${gateway}")
    ∷ say (text "echo     dns     = ${dns}")
    ∷ say (text "sleep 2")
    ∷ say []
    ∷ []

unfoldable pub head_lines : List Line
unfolding arch_lines welcome_lines
head_lines = arch_lines ++ welcome_lines

unfoldable pub netmask_lines : DispatchContext → List Line
netmask_lines ctx =
    if is_empty ctx.client_netmask
    then say (text "echo [stage 2/5] no -client-netmask flag set; using DHCP-supplied netmask")
      ∷ say (text "sleep 1")
      ∷ say []
      ∷ []
    else say (text "echo [stage 2/5] widening netmask for cross-subnet routing")
      ∷ print (sprintf "echo   from %s -> " ((text "${netmask}") ∷ [])) ctx.client_netmask []
      ∷ print (text "set net0/netmask ") ctx.client_netmask []
      ∷ say (text "echo   net0/netmask now: ${netmask}")
      ∷ say (text "sleep 2")
      ∷ say []
      ∷ []

abbrev pub addr : DispatchContext → Text
addr ctx = sprintf "%s:%d" (ctx.advertised_ip ∷ int_text ctx.http_port ∷ [])

unfoldable pub table_head : DispatchContext → List Line
table_head ctx =
    let addr = addr ctx in
    print (text "echo [phone-home] chaining http://") addr (text "/debug/probe/stage/post-netmask")
    ∷ print (text "chain --autofree http://") addr (
        text
          "/debug/probe/stage/post-netmask || echo   (phone-home failed; pxe-beacon may be unreachable)")
    ∷ say []
    ∷ say (text "echo [stage 3/5] per-MAC iseq dispatch")
    ∷ say (text "echo   comparing ${net0/mac:hexhyp} against fleet.yaml entries...")
    ∷ say (text "sleep 1")
    ∷ say []
    ∷ say (text "# ----- per-MAC dispatch (one iseq per line; covers net0..net3) -----")
    ∷ []

-- The lines of the table for one machine: one for each network card.
unfoldable pub match_lines : Machine → List Line
unfolding label_of
match_lines m =
    let own = label_of m.mac m.profile.name in
    let hyp = hyphens m.mac in
    print (text "echo   trying ") m.profile.name (sprintf " (%s)..." (hyp ∷ []))
    ∷ on_match (bytes "net0/mac:hexhyp") hyp own
    ∷ on_match (bytes "net1/mac:hexhyp") hyp own
    ∷ on_match (bytes "net2/mac:hexhyp") hyp own
    ∷ on_match (bytes "net3/mac:hexhyp") hyp own
    ∷ []

unfoldable pub match_table : Map Profile → List Line
unfolding match_lines
match_table [] = []
match_table (m ∷ ms) = match_lines (as_machine m) ++ match_table ms

unfoldable pub table_end : List Line
table_end =
    say (text "echo   no iseq matched — falling through to target_default")
    ∷ say (text "sleep 1")
    ∷ jump [] (bytes "target_default")
    ∷ say []
    ∷ []

abbrev pub is_armed : DispatchContext → Text → Bool
is_armed ctx mac = elim ctx.rescue_armed [ none ↦ false | some armed ↦ armed mac ]

unfoldable pub machine_blocks : DispatchContext → (Text → Text) → Map Profile → List Line
unfolding machine_block
machine_blocks ctx quote [] = []
machine_blocks ctx quote ((mac, p) ∷ ms) =
    machine_block ctx (as_machine (mac, p)) (is_armed ctx mac) quote ++ machine_blocks ctx quote ms

unfoldable pub tail_lines : DispatchContext → List Line
tail_lines ctx =
    let addr = addr ctx in
    say (text "# ----- default arm: machine not in fleet.yaml -----")
    ∷ label (bytes "target_default")
    ∷ say (text "echo")
    ∷ say (text "echo ===== NO FLEET MATCH =====")
    ∷ say (text "echo   ${net0/mac:hexhyp} is not in fleet.yaml")
    ∷ say (text "echo   check fleet.yaml for a matching `mac:` entry")
    ∷ say (text "echo   (compare against the value above — case + hyphens matter)")
    ∷ say (text "echo   falling back to netboot.xyz menu in 8s")
    ∷ say (text "sleep 8")
    ∷ jump [] (bytes "menu_netbootxyz")
    ∷ say []
    ∷ say (text "# ----- :menu_netbootxyz — clean chain to netboot.xyz hosted menu -----")
    ∷ label (bytes "menu_netbootxyz")
    ∷ say (text "echo")
    ∷ say (text "echo ===== CHAIN TO NETBOOT.XYZ =====")
    ∷ say (text "echo   target: https://boot.netboot.xyz/menu.ipxe")
    ∷ say (text "echo   (this REPLACES iPXE; you should see netboot.xyz's menu next)")
    ∷ say (
        sprintf
          "chain --autofree http://%s/debug/probe/netbootxyz/chaining || echo   (phone-home failed)"
          (addr ∷ []))
    ∷ say (text "sleep 2")
    ∷ jump (text "chain --replace --autofree https://boot.netboot.xyz/menu.ipxe || ")
        (bytes "menu_netbootxyz_fail")
    ∷ say []
    ∷ say (text "# ----- top-level fail blocks -----")
    ∷ label (bytes "top_fail_dhcp")
    ∷ say (text "echo")
    ∷ say (text "echo ===== TOP-LEVEL DHCP FAILED =====")
    ∷ say (text "echo   iPXE could not get an IP from the DHCP server")
    ∷ say (text "echo   nothing further is possible; rebooting in 30s")
    ∷ say (text "sleep 30")
    ∷ say (text "reboot")
    ∷ say []
    ∷ label (bytes "menu_netbootxyz_fail")
    ∷ say (text "echo")
    ∷ say (text "echo ===== NETBOOT.XYZ CHAIN FAILED =====")
    ∷ say (text "echo   HTTPS chain to boot.netboot.xyz failed")
    ∷ say (text "echo   check outbound HTTPS reachability from this NIC")
    ∷ say (text "echo   rebooting in 30s")
    ∷ say (text "sleep 30")
    ∷ say (text "reboot")
    ∷ []

abbrev pub by_mac : Text × Profile → Text × Profile → Bool
by_mac (mac, p) (mac', p') = text_lt mac mac'

abbrev pub machines_of : Option Fleet → Map Profile
machines_of none = []
machines_of (some f) = f.machines

-- The machines in the order of their addresses.
unfoldable pub sorted_machines : Option Fleet → Map Profile
sorted_machines f = sort_by by_mac (machines_of f)

unfoldable pub dispatch_of : DispatchContext → (Text → Text) → Map Profile → List Line
unfolding head_lines netmask_lines table_head match_table table_end machine_blocks tail_lines
dispatch_of ctx quote ms =
    head_lines
    ++ (netmask_lines ctx
        ++ (table_head ctx
            ++ (match_table ms ++ (table_end ++ (machine_blocks ctx quote ms ++ tail_lines ctx)))))

unfoldable pub dispatch_lines : DispatchContext → (Text → Text) → Option Fleet → List Line
unfolding dispatch_of sorted_machines
dispatch_lines ctx quote f = dispatch_of ctx quote (sorted_machines f)

-- `RenderDispatch`; `quote` is the printing verb for a quoted string.
unfoldable pub render_dispatch : DispatchContext → (Text → Text) → Option Fleet → Text
unfolding dispatch_lines script_text
render_dispatch ctx quote f = script_text (dispatch_lines ctx quote f)
