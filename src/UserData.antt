-- ===== src/UserData.antt =====
-- handleUserData of internal/httpd/httpd.go: the cloud-init document that a machine is served, with
-- the callback that it makes when it is installed.
pub mod Callback
pub mod Tests
use pxe_beacon.Base.{
  ℕ, ◌==◌, Bool, true, false, ◌||◌, Option, none, some, List, [], ◌∷◌, ◌++◌, if◌then◌else◌,
  is_empty, is_some, ℤ, Text, bytes, text, has_prefix, trim_space, int_text, Result, ok, err,
}
use pxe_beacon.Mac.{canonical_mac}
use pxe_beacon.FilePaths.{clean}
use pxe_beacon.Fleet.{Fleet, Profile, lookup_machine}
use pxe_beacon.Tracker.{user_data_fetched, Tracker, note}
use pxe_beacon.Boot.Script.{sprintf}
use pxe_beacon.Boot.Arms.{hyphens}
use pxe_beacon.CallbackToken.{Signer, mint}
use pxe_beacon.Httpd.{Server, fleet_ready, note_wired}

-- The options of the server that this handler reads.
pub record Settings : Type 0 where
  pub advertised_ip : Text
  pub http_port : ℤ
  pub data_dir : Text
  pub callback_tokens : Option Signer

-- What a template is rendered with.
pub record Vars : Type 0 where
  pub name : Text
  pub mac : Text
  pub mac_hyp : Text
  pub profile : Profile
  pub callback_token : Text

pub data UserDataError : Type 0 where
  not_ready mac_missing mac_invalid unreadable no_default not_rendered : UserDataError

-- `machineCloudInitOverridePath`
unfoldable pub override_path : Settings → Text → Text
unfolding clean
override_path s mac =
    if is_empty s.data_dir
    then []
    else clean (s.data_dir ++ (bytes "/machines/" ++ (hyphens mac ++ bytes "/cloud-init.yaml")))

-- The URL of the callback.
unfoldable pub phone_home_url : Settings → Text → Text → Text
unfolding sprintf
phone_home_url s mac token =
    let url =
      sprintf "http://%s:%d/autoinstall/%s/done"
        (s.advertised_ip ∷ int_text s.http_port ∷ hyphens mac ∷ []) in
    if is_empty token then url else url ++ (bytes "?t=" ++ token)

-- `cloudInitPhoneHome`
unfoldable pub cloud_init_phone_home : Settings → Text → Text → Text
unfolding phone_home_url
cloud_init_phone_home s mac token =
    text
      "\n# phone_home appended by pxe-beacon — it owns this callback (carries the\n# auth token). Do NOT define your own phone_home; fleet load rejects it.\nphone_home:\n  url: "
    ++ (phone_home_url s mac token ++ bytes "\n  post: all\n  tries: 10\n")

-- `bytes.HasSuffix(body, "\n")`
unfoldable pub ends_line : Text → Bool
ends_line [] = false
ends_line (b ∷ []) = b == 10
ends_line (b ∷ c ∷ s) = ends_line (c ∷ s)

-- `machineCloudInitOverride`
unfoldable pub machine_override : (Text → Option Text) → Settings → Text → Option Text
unfolding override_path
machine_override read s mac =
    let path = override_path s mac in if is_empty path then none else read path

-- `mintCallbackToken`; `hmac` is HMAC-SHA256.
unfoldable pub mint_callback_token : (Text → Text → Text) → Settings → ℕ → Text → Text
unfolding mint
mint_callback_token hmac s now mac = elim s.callback_tokens [
  | none ↦ []
  | some signer ↦ mint hmac signer now mac
]

-- `read` reads a file, `default_` is the embedded document, `render` parses and
-- executes a template, and `is_map` says whether a text is a YAML map.
module _ (hmac : Text → Text → Text) (read : Text → Option Text) (default_ : Option Text)
    (render : Text → Vars → Option Text) (is_map : Text → Bool) (s : Settings) where
  -- `isYAMLCloudConfig`
  unfoldable pub is_yaml_cloud_config : Text → Bool
  unfolding has_prefix trim_space
  is_yaml_cloud_config b =
      let t = trim_space b in
      if has_prefix t (bytes "#!")
        || has_prefix t (bytes "## template: jinja")
        || has_prefix t (bytes "Content-Type: multipart")
      then false
      else is_map b

  -- The rendered document with the callback behind it.
  unfoldable pub with_phone_home : Text → Text → Text → Text
  unfolding is_yaml_cloud_config ends_line cloud_init_phone_home
  with_phone_home mac token body =
      if is_yaml_cloud_config body
      then (if ends_line body then body else body ++ (10 ∷ [])) ++ cloud_init_phone_home s mac token
      else body

  unfoldable pub source_of : Profile → Option Text → Result UserDataError Text
  source_of p (some override) = ok override
  source_of p none =
      if is_empty p.cloud_init
      then elim default_ [ none ↦ err no_default | some raw ↦ ok raw ]
      else elim (read p.cloud_init) [ none ↦ err unreadable | some raw ↦ ok raw ]

  unfoldable pub rendered :
      ℕ → Text → Profile → Result UserDataError Text → Result UserDataError Text
  unfolding mint_callback_token with_phone_home
  rendered now mac p (err e) = err e
  rendered now mac p (ok raw) =
      let token = mint_callback_token hmac s now mac in
      elim (render raw (record {
        name = p.name;
        mac = mac;
        mac_hyp = hyphens mac;
        profile = p;
        callback_token = token;
      })) [ none ↦ err not_rendered | some body ↦ ok (with_phone_home mac token body) ]

  unfoldable pub document : Fleet → ℕ → Text → Result UserDataError Text
  unfolding rendered source_of machine_override
  document f now mac =
      let p = lookup_machine f mac in rendered now mac p (source_of p (machine_override read s mac))

  -- The end of the request: a document that is served is noted.
  unfoldable pub noted :
      Server → ℕ → Text → Result UserDataError Text → Server × Result UserDataError Text
  noted server now mac (err e) = (server, err e)
  noted server now mac (ok body) = (
    record server { tracker = note_wired server.tracker server.fleet now mac user_data_fetched },
    ok body,
  )

  unfoldable pub user_data_for :
      Server → ℕ → Option Text → Option Fleet → Server × Result UserDataError Text
  unfolding document noted
  user_data_for server now mac none = (server, err not_ready)
  user_data_for server now none (some f) = (server, err mac_invalid)
  user_data_for server now (some mac) (some f) = noted server now mac (document f now mac)

  -- `handleUserData`
  unfoldable pub user_data : Server → ℕ → Text → Server × Result UserDataError Text
  unfolding user_data_for
  user_data server now raw =
      if fleet_ready server
      then (if is_empty raw
          then (server, err mac_missing)
          else user_data_for server now (canonical_mac raw) server.fleet)
      else (server, err not_ready)
