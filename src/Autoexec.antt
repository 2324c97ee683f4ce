-- ===== src/Autoexec.antt =====
-- internal/boot/targets.go and handleAutoexec of internal/httpd/httpd.go: the iPXE script that a
-- machine is served, and the script that sends it there. Parsing and rendering a template is a
-- parameter.
pub mod Templates
pub mod Served
pub mod Tests
use pxe_beacon.Base.{
  Bool, true, false, ◌||◌, Option, none, some, [], ◌∷◌, if◌then◌else◌, is_empty, ℤ, Text, int_text,
  Result, ok, err,
}
use pxe_beacon.Mac.{canonical_mac}
use pxe_beacon.Fleet.{Fleet, Profile, lookup_machine, is_text}
use pxe_beacon.Assets.{read_autoexec}
use pxe_beacon.Boot.Script.{sprintf}
use pxe_beacon.Boot.Arms.{hyphens}
use pxe_beacon.Httpd.{Server, fleet_ready}
use pxe_beacon.UserData.{Settings}

-- `RenderContext`
pub record RenderContext : Type 0 where
  pub name : Text
  pub mac : Text
  pub mac_hyp : Text
  pub advertised_ip : Text
  pub http_port : ℤ

pub data AutoexecError : Type 0 where
  not_ready mac_missing mac_invalid unsupported not_built_in no_template no_script : AutoexecError
  not_rendered : AutoexecError

-- `IsBuiltIn`
unfoldable pub is_built_in : Text → Bool
is_built_in target =
    is_text target "menu"
    || is_text target "ubuntu-22.04"
    || is_text target "ubuntu-24.04"
    || is_text target "debian-12"
    || is_text target "debian-13"

-- The name and the form with hyphens, where they are not set.
unfoldable pub completed : RenderContext → RenderContext
completed ctx = record ctx {
  name = if is_empty ctx.name then ctx.mac else ctx.name;
  mac_hyp = if is_empty ctx.mac_hyp then hyphens ctx.mac else ctx.mac_hyp;
}

unfoldable pub context_of : Settings → Profile → Text → RenderContext
context_of s p mac = record {
  name = p.name;
  mac = mac;
  mac_hyp = [];
  advertised_ip = s.advertised_ip;
  http_port = s.http_port;
}

-- `RedirectorScript`
unfoldable pub redirector_script : Text → ℤ → Text
unfolding sprintf
redirector_script advertised_ip http_port =
    sprintf
      "#!ipxe\n# pxe-beacon: per-machine override redirector. iPXE substitutes the\n# client's MAC into the URL below and fetches the per-machine\n# autoexec.ipxe from our HTTP server, which does the real dispatch.\n#\n# DHCP first — autoexec.ipxe runs before iPXE's embed.ipxe runs\n# its own dhcp, so we need to acquire networking ourselves before\n# chaining HTTP. Without this the chain silently fails and iPXE\n# falls back to its embedded netboot.xyz chain (this was the v0.4.0\n# bug).\ndhcp || echo pxe-beacon: dhcp failed in autoexec; falling back to embed\nchain --replace --autofree http://%s:%d/autoinstall/${net0/mac:hexhyp}/autoexec.ipxe || \\\necho pxe-beacon: HTTP override unreachable; falling back to embed\nexit\n"
      (advertised_ip ∷ int_text http_port ∷ [])

-- `embedded` and `read` read an embedded file and a file of the disk; `render` parses a template
-- and executes it. main gives the templates the directory of the settings.
module _ (embedded : Text → Option Text) (read : Text → Option Text)
    (render : Text → RenderContext → Option Text) (s : Settings) where
  unfoldable pub executed : RenderContext → AutoexecError → Option Text → Result AutoexecError Text
  unfolding completed
  executed ctx missing none = err missing
  executed ctx missing (some raw) = elim (render raw (completed ctx)) [
    | none ↦ err not_rendered
    | some body ↦ ok body
  ]

  -- `RenderAutoexec`
  unfoldable pub render_autoexec : Text → RenderContext → Result AutoexecError Text
  unfolding executed is_built_in read_autoexec
  render_autoexec target ctx =
      if is_built_in target
      then executed ctx no_template (read_autoexec embedded s.data_dir read target)
      else err not_built_in

  -- `RenderCustom`
  unfoldable pub render_custom : Text → RenderContext → Result AutoexecError Text
  unfolding executed
  render_custom path ctx = executed ctx no_script (read path)

  -- The switch over the boot target.
  unfoldable pub script_for : Profile → Text → Result AutoexecError Text
  unfolding render_autoexec render_custom is_built_in context_of
  script_for p mac =
      let ctx = context_of s p mac in
      if is_text p.boot "custom"
      then render_custom p.ipxe_script ctx
      else if is_built_in p.boot
      then render_autoexec p.boot ctx
      else err unsupported

  unfoldable pub autoexec_for : Option Text → Option Fleet → Result AutoexecError Text
  unfolding script_for
  autoexec_for mac none = err not_ready
  autoexec_for none (some f) = err mac_invalid
  autoexec_for (some mac) (some f) = script_for (lookup_machine f mac) mac

  -- `handleAutoexec`
  unfoldable pub handle_autoexec : Server → Text → Result AutoexecError Text
  unfolding autoexec_for
  handle_autoexec server raw =
      if fleet_ready server
      then (if is_empty raw then err mac_missing else autoexec_for (canonical_mac raw) server.fleet)
      else err not_ready
