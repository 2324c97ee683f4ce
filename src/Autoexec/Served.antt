-- ===== src/Autoexec/Served.antt =====
-- What a machine of a loaded fleet is answered when it asks for its script.
use pxe_beacon.Base.{
  ◌≡◌, refl, ◌⊎◌, inl, inr, arith, true, false, Option, none, some, [], ◌∷◌, Bool-cases,
  Option-cases, is_empty, is_some, all_of, Text, lookup, Result, ok, err, if◌then◌else◌,
}
use pxe_beacon.Mac.{canonical_mac, mac_code}
use pxe_beacon.Fleet.{
  Profile, ConfigFile, Fleet, Disk, is_text, lookup_machine, profile_of, resolved,
}
use pxe_beacon.Fleet.Validate.{validate_profile, check_target, check_file, check_phone_home}
use pxe_beacon.Fleet.Loading.{load}
use pxe_beacon.Fleet.Loaded.{IsChecked, Each, load_sound}
use pxe_beacon.Assets.{embedded_names, read_autoexec}
use pxe_beacon.Autoexec.Templates.{is_rhel, read_autoexec_some, rhel_apart, recognised_built}
use pxe_beacon.Httpd.{Server}
use pxe_beacon.UserData.{Settings}
use pxe_beacon.Autoexec.{
  RenderContext, AutoexecError, unsupported, no_template, no_script, not_rendered, context_of,
  completed, executed, render_autoexec, render_custom, script_for, autoexec_for, handle_autoexec,
}

nonempty_mac : (raw c : Text) → canonical_mac raw ≡ some c → is_empty raw ≡ false
unfolding mac_code
nonempty_mac [] c h = cc
nonempty_mac (b ∷ raw) c h = refl

IsChecked-resolved :
    (disk : Disk) (f : Fleet) (o : Option Profile)
    → IsChecked disk f.defaults
    → Each (IsChecked disk) o
    → IsChecked disk (resolved f o)
unfolding resolved validate_profile check_target check_phone_home
IsChecked-resolved disk f none h each = h
IsChecked-resolved disk f (some p) h each = each

IsChecked-profile :
    (disk : Disk) (f : Fleet) (mac : Option Text)
    → IsChecked disk f.defaults
    → ((c : Text) → Each (IsChecked disk) (lookup c f.machines))
    → IsChecked disk (resolved f (profile_of f mac))
unfolding profile_of
IsChecked-profile disk f none h each = IsChecked-resolved disk f none h tt
IsChecked-profile disk f (some c) h each =
    IsChecked-resolved disk f (lookup c f.machines) h (each c)

-- What a load has checked holds of every machine that is looked up.
IsChecked-machine :
    (decode : Text → Option ConfigFile) (dir_of : Text → Text) (disk : Disk) (before fleet : Fleet)
    (c : Text)
    → load decode dir_of disk before ≡ ok fleet
    → IsChecked disk (lookup_machine fleet c)
unfolding lookup_machine profile_of
IsChecked-machine decode dir_of disk before fleet c loaded =
    let (cfg, read, found, same, default_checked, each, valid) =
      load_sound decode dir_of disk before fleet loaded in
    IsChecked-profile disk fleet (canonical_mac c) default_checked each

-- What comes of the rendering of a template.
abbrev pub as_served : Option Text → Result AutoexecError Text
as_served none = err not_rendered
as_served (some body) = ok body

custom_exists :
    (disk : Disk) (p : Profile)
    → is_text p.boot "custom" ≡ true
    → validate_profile disk p ≡ none
    → disk.exists p.ipxe_script ≡ true
unfolding validate_profile check_target check_file
custom_exists disk p custom valid = elim (Bool-cases (is_empty p.ipxe_script)) [
  | inl e ↦ absurd (ground arith)
  | inr e ↦ elim (Bool-cases (disk.exists p.ipxe_script)) [
    | inl found ↦ found
    | inr gone ↦ absurd (ground arith)
  ]
]

module _ (embedded : Text → Option Text) (read : Text → Option Text)
    (render : Text → RenderContext → Option Text) (s : Settings) where
  -- The template of a profile: the file of the operator, or that of the target.
  abbrev pub template_of : Profile → Option Text
  template_of p =
      if is_text p.boot "custom"
      then read p.ipxe_script
      else read_autoexec embedded s.data_dir read p.boot

  -- The answer to a machine with the address `mac` and the profile `p`, which was checked on
  -- `disk`.
  abbrev pub IsScripted : Disk → Profile → Text → Result AutoexecError Text → Type 0
  IsScripted disk p mac r =
      ((is_rhel p.boot ≡ true) × (r ≡ err unsupported))
      ⊎ ((is_text p.boot "custom" ≡ true)
          × (disk.exists p.ipxe_script ≡ true)
          × (read p.ipxe_script ≡ none)
          × (r ≡ err no_script))
      ⊎ ((raw : Text) × (is_rhel p.boot ≡ false)
          × (template_of p ≡ some raw)
          × (r ≡ as_served (render raw (completed (context_of s p mac)))))

  executed-rendered :
      (ctx : RenderContext) (missing : AutoexecError) (raw : Text)
      → executed embedded read render s ctx missing (some raw)
        ≡ as_served (render raw (completed ctx))
  unfolding executed
  executed-rendered ctx missing raw = elim (Option-cases (render raw (completed ctx))) [
    | inl e ↦ rw (executed, e) refl
    | inr (body, e) ↦ rw (executed, e) refl
  ]

  script_for-IsScripted :
      (disk : Disk) (p : Profile) (mac : Text)
      → all_of (λ name. is_some (embedded name)) embedded_names ≡ true
      → IsChecked disk p
      → IsScripted disk p mac (script_for embedded read render s p mac)
  unfolding script_for render_autoexec render_custom executed
  script_for-IsScripted disk p mac complete (recognised, valid) =
      elim (Bool-cases (is_rhel p.boot)) [
        | inl rhel ↦
            let (not_custom, not_built) = rhel_apart p.boot rhel in
            inl (rhel, rw (not_custom, not_built) refl)
        | inr other ↦ elim (Bool-cases (is_text p.boot "custom")) [
          | inl custom ↦ elim (Option-cases (read p.ipxe_script)) [
            | inl gone ↦
                inr (inl (custom, custom_exists disk p custom valid, gone, rw (custom, gone) refl))
            | inr (raw, found) ↦ inr (
                inr (
                  raw,
                  other,
                  rw custom found,
                  rw (custom, found) (executed-rendered (context_of s p mac) no_script raw),
                ))
          ]
          | inr not_custom ↦
              let built = recognised_built p.boot recognised other not_custom in
              let some_template =
                read_autoexec_some embedded s.data_dir read p.boot built complete in
              elim (Option-cases (read_autoexec embedded s.data_dir read p.boot)) [
                | inl gone ↦ absurd (ground (arith, some_template))
                | inr (raw, found) ↦ inr (
                    inr (
                      raw,
                      other,
                      rw not_custom found,
                      rw (not_custom, built, found)
                          (executed-rendered (context_of s p mac) no_template raw),
                    ))
              ]
        ]
      ]

-- After a load, where the server has the loaded fleet and a tracker and the embedded files are
-- there, every machine with a MAC, whether it stands in the fleet or not, gets one of three
-- answers. One with the boot target rocky-9 or alma-9 is refused as unsupported, although the load
-- has accepted this target. One with the target custom whose script was there at the load and
-- cannot be read now is told that there is no script. For each other machine there is a template,
-- the operator's script or that of its target, and the answer is its rendering with the machine's
-- name, address and server address, or that it cannot be rendered.
pub autoexec_served :
    (decode : Text → Option ConfigFile) (dir_of : Text → Text) (disk : Disk) (before fleet : Fleet)
    (embedded : Text → Option Text) (read : Text → Option Text)
    (render : Text → RenderContext → Option Text) (s : Settings) (server : Server) (raw c : Text)
    → load decode dir_of disk before ≡ ok fleet
    → all_of (λ name. is_some (embedded name)) embedded_names ≡ true
    → server.fleet ≡ some fleet
    → is_some server.tracker ≡ true
    → canonical_mac raw ≡ some c
    → IsScripted embedded read render s disk
        (lookup_machine fleet c)
        c
        (handle_autoexec embedded read render s server raw)
unfolding handle_autoexec autoexec_for
autoexec_served decode dir_of disk before fleet embedded read render s server raw c loaded complete
      wired tracked known =
    rw (wired, tracked, nonempty_mac raw c known, known)
      (script_for-IsScripted embedded read render s disk (lookup_machine fleet c) c complete
        (IsChecked-machine decode dir_of disk before fleet c loaded))
