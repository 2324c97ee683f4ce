-- ===== src/Boot/Arms.antt =====
-- writeMachineErrorBlocks, writeRescueArm and the switch over the boot target of
-- internal/boot/dispatch.go. `own` is the label of the machine.
use pxe_beacon.Base.{
  Bool, ◌||◌, Option, List, [], ◌∷◌, ◌++◌, if◌then◌else◌, ℤ, int_text, Text, text, bytes,
  replace_byte, strip_prefix,
}
use pxe_beacon.Fleet.{Machine, is_text}
use pxe_beacon.Boot.Script.{sprintf, Line, say, print, label, jump}

-- `DispatchContext`; a nil callback is absent.
pub record DispatchContext : Type 0 where
  pub advertised_ip : Text
  pub http_port : ℤ
  pub client_netmask : Text
  pub rescue_armed : Option (Text → Bool)

-- `strings.ReplaceAll(mac, ":", "-")`
abbrev pub hyphens : Text → Text
hyphens mac = replace_byte b':' b'-' mac

unfoldable pub error_blocks : Text → Text → Text → List Line
error_blocks own target src =
    say []
    ∷ label (own ++ bytes "_fail_dhcp")
    ∷ say (text "echo")
    ∷ say (text "echo ===== DHCP FAILED =====")
    ∷ say (sprintf "echo   target: %s" (target ∷ []))
    ∷ say (text "echo   iPXE could not get an IP from the DHCP server in the matched arm")
    ∷ say (text "echo   nothing further is possible; rebooting in 30s")
    ∷ say (text "sleep 30")
    ∷ say (text "reboot")
    ∷ say []
    ∷ label (own ++ bytes "_fail_kernel")
    ∷ say (text "echo")
    ∷ say (text "echo ===== KERNEL FETCH FAILED =====")
    ∷ say (sprintf "echo   target:    %s" (target ∷ []))
    ∷ say (sprintf "echo   tried URL: %s/linux" (src ∷ []))
    ∷ say (text "echo   verify DNS + outbound HTTP from this NIC reach the URL above")
    ∷ say (text "echo   rebooting in 30s")
    ∷ say (text "sleep 30")
    ∷ say (text "reboot")
    ∷ say []
    ∷ label (own ++ bytes "_fail_initrd")
    ∷ say (text "echo")
    ∷ say (text "echo ===== INITRD FETCH FAILED =====")
    ∷ say (sprintf "echo   target:    %s" (target ∷ []))
    ∷ say (sprintf "echo   tried URL: %s/initrd.gz" (src ∷ []))
    ∷ say (text "echo   kernel loaded fine; initrd download failed")
    ∷ say (text "echo   rebooting in 30s")
    ∷ say (text "sleep 30")
    ∷ say (text "reboot")
    ∷ say []
    ∷ label (own ++ bytes "_fail_boot")
    ∷ say (text "echo")
    ∷ say (text "echo ===== BOOT FAILED =====")
    ∷ say (sprintf "echo   target: %s" (target ∷ []))
    ∷ say (text "echo   kernel + initrd loaded but `boot` returned error")
    ∷ say (text "echo   likely a kernel cmdline / arch mismatch")
    ∷ say (text "echo   rebooting in 30s")
    ∷ say (text "sleep 30")
    ∷ say (text "reboot")
    ∷ []

-- The kernel arguments that the source keeps as empty strings.
abbrev no_arg : Text
no_arg = []

module _ (ctx : DispatchContext) (m : Machine) where
  abbrev port : Text
  port = int_text ctx.http_port

  unfoldable pub rescue_arm : Text → List Line
  unfolding error_blocks
  rescue_arm own =
      let assets = sprintf "http://%s:%d/assets/systemrescue" (ctx.advertised_ip ∷ port ∷ []) in
      let http_srv = assets ++ bytes "/" in
      let kernel_url = assets ++ bytes "/sysresccd/boot/x86_64/vmlinuz" in
      let initrd_url = assets ++ bytes "/sysresccd/boot/x86_64/sysresccd.img" in
      let cfg_url =
        sprintf "http://%s:%d/autoinstall/%s/sysrescue.yaml"
          (ctx.advertised_ip ∷ port ∷ hyphens m.mac ∷ []) in
      say (sprintf "echo pxe-beacon: fetching SystemRescue kernel: %s" (kernel_url ∷ []))
      ∷ say (
          text
            "echo pxe-beacon: (requires `pxe-beacon fetch systemrescue` to have populated data-dir)")
      ∷ jump
          (sprintf
            "kernel --name vmlinuz %s archisobasedir=sysresccd ip=dhcp archiso_http_srv=%s sysrescuecfg=%s --- || "
            (kernel_url ∷ http_srv ∷ cfg_url ∷ []))
          (own ++ bytes "_fail_kernel")
      ∷ say (sprintf "echo pxe-beacon: fetching SystemRescue initramfs: %s" (initrd_url ∷ []))
      ∷ jump (sprintf "initrd --name sysresccd.img %s || " (initrd_url ∷ []))
          (own ++ bytes "_fail_initrd")
      ∷ say (text "echo pxe-beacon: handing control to SystemRescue (boot)...")
      ∷ jump (text "boot || ") (own ++ bytes "_fail_boot")
      ∷ error_blocks own (bytes "systemrescue") assets

  abbrev autoinstall : Text → Text
  autoinstall file =
      sprintf "http://%s:%d/autoinstall/%s/%s"
        (ctx.advertised_ip ∷ port ∷ hyphens m.mac ∷ file ∷ [])

  unfoldable pub debian_12_arm : Text → List Line
  unfolding error_blocks
  debian_12_arm own =
      let mirror =
        text
          "http://deb.debian.org/debian/dists/bookworm/main/installer-amd64/current/images/netboot/debian-installer/amd64" in
      let preseed_url = autoinstall (bytes "preseed.cfg") in
      say (sprintf "echo pxe-beacon: fetching Debian 12 d-i kernel: %s/linux" (mirror ∷ []))
      ∷ jump
          (sprintf
            "kernel --name linux %s/linux auto=true priority=critical preseed/url=%s mirror/suite=bookworm %s %s %s %s --- || "
            (mirror ∷ preseed_url ∷ no_arg ∷ no_arg ∷ no_arg ∷ no_arg ∷ []))
          (own ++ bytes "_fail_kernel")
      ∷ say (sprintf "echo pxe-beacon: fetching initrd: %s/initrd.gz" (mirror ∷ []))
      ∷ jump (sprintf "initrd --name initrd.gz %s/initrd.gz || " (mirror ∷ []))
          (own ++ bytes "_fail_initrd")
      ∷ say (text "echo pxe-beacon: handing control to d-i (boot)...")
      ∷ jump (text "boot || ") (own ++ bytes "_fail_boot")
      ∷ error_blocks own m.profile.boot mirror

  unfoldable pub debian_13_arm : Text → List Line
  unfolding error_blocks
  debian_13_arm own =
      let mirror =
        text
          "http://deb.debian.org/debian/dists/trixie/main/installer-amd64/current/images/netboot/debian-installer/amd64" in
      let preseed_url = autoinstall (bytes "preseed.cfg") in
      say (sprintf "echo pxe-beacon: fetching Debian 13 d-i kernel: %s/linux" (mirror ∷ []))
      ∷ jump
          (sprintf
            "kernel --name linux %s/linux auto=true priority=critical preseed/url=%s mirror/suite=trixie %s %s %s %s --- || "
            (mirror ∷ preseed_url ∷ no_arg ∷ no_arg ∷ no_arg ∷ no_arg ∷ []))
          (own ++ bytes "_fail_kernel")
      ∷ say (sprintf "echo pxe-beacon: fetching initrd: %s/initrd.gz" (mirror ∷ []))
      ∷ jump (sprintf "initrd --name initrd.gz %s/initrd.gz || " (mirror ∷ []))
          (own ++ bytes "_fail_initrd")
      ∷ say (text "echo pxe-beacon: handing control to d-i (boot)...")
      ∷ jump (text "boot || ") (own ++ bytes "_fail_boot")
      ∷ error_blocks own m.profile.boot mirror

  -- The arm of rocky-9 and alma-9: `system` is the name for the echoes.
  unfoldable pub kickstart_arm : Text → Text → Text → Text → List Line
  unfolding error_blocks
  kickstart_arm mirror repo system own =
      let kickstart_url = autoinstall (bytes "kickstart.cfg") in
      say (text "echo pxe-beacon: ip=${ip} gw=${gateway} dns=${dns}")
      ∷ say (sprintf "echo pxe-beacon: fetching %s kernel: %s/vmlinuz" (system ∷ mirror ∷ []))
      ∷ jump
          (sprintf
            "kernel --name vmlinuz %s/vmlinuz initrd=initrd.img inst.repo=%s inst.ks=%s %s %s %s --- || "
            (mirror ∷ repo ∷ kickstart_url ∷ no_arg ∷ no_arg ∷ no_arg ∷ []))
          (own ++ bytes "_fail_kernel")
      ∷ say (sprintf "echo pxe-beacon: fetching %s initrd: %s/initrd.img" (system ∷ mirror ∷ []))
      ∷ jump (sprintf "initrd --name initrd.img %s/initrd.img || " (mirror ∷ []))
          (own ++ bytes "_fail_initrd")
      ∷ say (text "echo pxe-beacon: handing control to Anaconda (boot)...")
      ∷ jump (text "boot || ") (own ++ bytes "_fail_boot")
      ∷ error_blocks own m.profile.boot mirror

  unfoldable pub redhat_arm : Text → List Line
  unfolding kickstart_arm
  redhat_arm own =
      if is_text m.profile.boot "rocky-9"
      then kickstart_arm
          (text "https://download.rockylinux.org/pub/rocky/9/BaseOS/x86_64/os/images/pxeboot")
          (text "https://download.rockylinux.org/pub/rocky/9/BaseOS/x86_64/os")
          (text "Rocky Linux 9") own
      else kickstart_arm
          (text "https://repo.almalinux.org/almalinux/9/BaseOS/x86_64/os/images/pxeboot")
          (text "https://repo.almalinux.org/almalinux/9/BaseOS/x86_64/os") (text "AlmaLinux 9") own

  unfoldable pub ubuntu_arm : Text → List Line
  unfolding error_blocks
  ubuntu_arm own =
      let boot = m.profile.boot in
      let assets = sprintf "http://%s:%d/assets/%s" (ctx.advertised_ip ∷ port ∷ boot ∷ []) in
      let autoinstall_base = autoinstall [] in
      say (
        sprintf "echo pxe-beacon: fetching Ubuntu %s kernel from %s/vmlinuz"
          (strip_prefix boot (bytes "ubuntu-") ∷ assets ∷ []))
      ∷ say (
          sprintf "echo pxe-beacon: (requires `pxe-beacon fetch %s` to have populated data-dir)"
            (boot ∷ []))
      ∷ jump
          (sprintf
            "kernel --name vmlinuz %s/vmlinuz initrd=initrd %s %s ipv6.disable=1 boot=casper url=%s/filesystem.squashfs %s autoinstall ds=nocloud-net\\;s=%s --- || "
            (assets ∷ no_arg ∷ no_arg ∷ assets ∷ no_arg ∷ autoinstall_base ∷ []))
          (own ++ bytes "_fail_kernel")
      ∷ jump (sprintf "initrd --name initrd %s/initrd || " (assets ∷ []))
          (own ++ bytes "_fail_initrd")
      ∷ say (text "echo pxe-beacon: handing control to Subiquity (boot)...")
      ∷ jump (text "boot || ") (own ++ bytes "_fail_boot")
      ∷ error_blocks own boot assets

  unfoldable pub custom_arm : Text → List Line
  custom_arm own =
      let custom_url = autoinstall (bytes "autoexec.ipxe") in
      say (sprintf "echo pxe-beacon: chaining operator-supplied script %s" (custom_url ∷ []))
      ∷ jump (sprintf "chain --replace --autofree %s || " (custom_url ∷ []))
          (own ++ bytes "_fail_chain")
      ∷ say []
      ∷ label (own ++ bytes "_fail_dhcp")
      ∷ say (text "echo pxe-beacon: DHCP FAILED in custom arm — no IP, rebooting in 30s")
      ∷ say (text "sleep 30")
      ∷ say (text "reboot")
      ∷ say []
      ∷ label (own ++ bytes "_fail_chain")
      ∷ say (
          text
            "echo pxe-beacon: custom script CHAIN FAILED — check HTTP reachability to operator URL")
      ∷ say (text "sleep 30")
      ∷ say (text "reboot")
      ∷ []

  unfoldable pub menu_arm : Text → List Line
  menu_arm own =
      say (text "echo pxe-beacon: chaining netboot.xyz menu")
      ∷ jump (text "chain --replace --autofree https://boot.netboot.xyz/menu.ipxe || ")
          (own ++ bytes "_fail_chain")
      ∷ say []
      ∷ label (own ++ bytes "_fail_dhcp")
      ∷ say (text "echo pxe-beacon: DHCP FAILED in menu arm — no IP, rebooting in 30s")
      ∷ say (text "sleep 30")
      ∷ say (text "reboot")
      ∷ say []
      ∷ label (own ++ bytes "_fail_chain")
      ∷ say (text "echo pxe-beacon: netboot.xyz menu CHAIN FAILED — check HTTPS reachability")
      ∷ say (text "sleep 30")
      ∷ say (text "reboot")
      ∷ []

  -- The target is printed quoted, by `quote`.
  unfoldable pub unknown_arm : (Text → Text) → Text → List Line
  unknown_arm quote name =
      print (text "echo pxe-beacon: unknown boot target ") (quote m.profile.boot)
        (sprintf " for %s; falling through" (name ∷ []))
      ∷ jump [] (bytes "target_default")
      ∷ []

  unfoldable pub target_arm : (Text → Text) → Text → Text → List Line
  unfolding debian_12_arm debian_13_arm redhat_arm ubuntu_arm custom_arm menu_arm unknown_arm
  target_arm quote own name =
      if is_text m.profile.boot "debian-12"
      then debian_12_arm own
      else if is_text m.profile.boot "debian-13"
      then debian_13_arm own
      else if is_text m.profile.boot "rocky-9" || is_text m.profile.boot "alma-9"
      then redhat_arm own
      else if is_text m.profile.boot "ubuntu-22.04" || is_text m.profile.boot "ubuntu-24.04"
      then ubuntu_arm own
      else if is_text m.profile.boot "custom"
      then custom_arm own
      else if is_text m.profile.boot "menu"
      then menu_arm own
      else unknown_arm quote name
