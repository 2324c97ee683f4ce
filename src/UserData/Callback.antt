-- ===== src/UserData/Callback.antt =====
-- The callback in a served cloud-init document, of internal/httpd/httpd.go, and the guard that it
-- meets.
use pxe_beacon.Base.{ℕ, ◌≡◌, ◌⊎◌, Bool, false, Option, ◌++◌, Text, Result}
use pxe_beacon.Fleet.{Fleet}
use pxe_beacon.UserData.{
  Settings, Vars, UserDataError, cloud_init_phone_home, mint_callback_token, is_yaml_cloud_config,
}

abbrev Outcome : Type 0
Outcome = Result UserDataError Text

module _ (hmac : Text → Text → Text) (read : Text → Option Text) (default_ : Option Text)
    (render : Text → Vars → Option Text) (is_map : Text → Bool) (s : Settings) where
  -- A document that ends with the callback for `mac`, or one that is no YAML.
  HasCallback : ℕ → Text → Text → Type 0
  HasCallback now mac body =
      ((before : Text) × (body
          ≡ before ++ cloud_init_phone_home s mac (mint_callback_token hmac s now mac)))
      ⊎ (is_yaml_cloud_config hmac read default_ render is_map s body ≡ false)
