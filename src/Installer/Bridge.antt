-- ===== src/Installer/Bridge.antt =====
-- The bridge to cloud-init behind a preseed of internal/httpd/httpd.go, and the document that the
-- installed system fetches through it.
use pxe_beacon.Base.{
  ℕ, ◌≡◌, ◌⊎◌, Bool, true, Option, some, List, [], ◌∷◌, ◌++◌, Text, bytes, Result, ok,
}
use pxe_beacon.Fleet.{Fleet, Profile}
use pxe_beacon.Boot.Arms.{hyphens}
use pxe_beacon.Assets.{read_default}
use pxe_beacon.Httpd.{Server}
use pxe_beacon.UserData.{Settings, Vars, UserDataError, ends_line, user_data}
use pxe_beacon.Installer.{
  PreseedVars, KickstartVars, RescueVars, InstallerError, source_of, is_debian, cloud_init_bridge,
  preseed_vars, preseed,
}

abbrev Outcome : Type 0
Outcome = Result InstallerError Text

-- A text that is the rendered template of a source, ended with a new line, and the bridge.
pub HasBridge : Result InstallerError (Option Text) → (Text → Option Text) → Text → Text → Type 0
HasBridge source render bridge body =
    (template : Text) × (document : Text) × (before : Text) × (source ≡ ok (some template))
    × (render template ≡ some document)
    × (body ≡ before ++ bridge)
    × (ends_line before ≡ true)
    × ((before ≡ document) ⊎ (before ≡ document ++ (10 ∷ [])))

module _ (hmac : Text → Text → Text) (parse_ip : Text → Option (List ℕ))
    (embedded : Text → Option Text) (read : Text → Option Text)
    (render_preseed : Text → PreseedVars → Option Text)
    (render_kickstart : Text → KickstartVars → Option Text)
    (render_rescue : Text → RescueVars → Option Text) (s : Settings) (client_netmask : Text) where
  -- What a preseed for a machine is made of.
  abbrev Bridged : ℕ → Text → Profile → Text → Type 0
  Bridged now mac p =
      HasBridge
        (source_of read p.preseed (is_debian p.boot)
          (read_default embedded s.data_dir read (bytes "debian-preseed.cfg")))
        (λ template. render_preseed template (
          preseed_vars hmac parse_ip embedded read render_preseed render_kickstart render_rescue s
            client_netmask now mac p))
        (cloud_init_bridge s.advertised_ip s.http_port (hyphens mac))

-- The request for the cloud-init document of a machine.
abbrev pub fetch_user_data :
    (Text → Text → Text)
    → (Text → Option Text)
    → (Text → Option Text)
    → (Text → Vars → Option Text)
    → (Text → Bool)
    → Settings
    → Server
    → ℕ
    → Text
    → Server × Result UserDataError Text
fetch_user_data hmac embedded read render is_map s =
    user_data hmac read (read_default embedded s.data_dir read (bytes "cloud-init.yaml")) render
      is_map s
