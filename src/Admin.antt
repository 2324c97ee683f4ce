-- ===== src/Admin.antt =====
-- internal/httpd/admin.go: the forms of the administration pages that write files, and the guards
-- before them; what their editors show is in Views. The HTML of the pages is left out, and so is
-- parsing the address of a client, which is the work of the standard library.
pub mod Files
pub mod Views
pub mod Paths
pub mod Templates
pub mod CloudInit
pub mod Guarded
pub mod Replay
pub mod Served
pub mod Tests
use pxe_beacon.Base.{
  ℕ, ◌*◌, ◌==◌, Bool, true, false, not, ◌&&◌, ◌||◌, Option, none, some, List, [], ◌∷◌, ◌++◌, ltb,
  if◌then◌else◌, is_empty, length, take, Text, bytes, text, text_eq, trim_space, byte_at, is_some,
  Result, ok, err,
}
use pxe_beacon.Mac.{canonical_mac}
use pxe_beacon.Fleet.{Fleet, Profile, lookup_machine}
use pxe_beacon.Fleet.PhoneHome.{defines_phone_home}
use pxe_beacon.Fleet.Txn.{hex_text}
use pxe_beacon.Boot.Arms.{hyphens}
use pxe_beacon.Assets.{
  list_editable_templates, is_listed, template_path, read_embedded, read_default,
}
use pxe_beacon.UserData.{Settings, override_path, machine_override}
use pxe_beacon.Admin.Files.{FileMap, Fault, replace_file, remove_file}

-- `min2`
unfoldable pub min2 : ℕ → ℕ → ℕ
min2 a b = if ltb a b then a else b

-- `escape`
unfoldable pub escape : Text → Text
unfolding min2
escape s = take (min2 (length s * 2) 200) (hex_text s)

-- A redirection to an address, or a status with a message.
pub data Answer : Type 0 where
  redirected : Text → Answer
  refused : ℕ → Answer

unfoldable pub is_redirected : Answer → Bool
is_redirected (redirected url) = true
is_redirected (refused status) = false

-- `redirectFlash`
unfoldable pub redirect_flash : Text → Text → Answer
unfolding escape
redirect_flash kind msg =
    redirected (bytes "/admin?flash=" ++ (escape msg ++ (bytes "&kind=" ++ kind)))

-- `cloudInitFlash`
unfoldable pub cloud_init_flash : Text → Text → Text → Answer
unfolding escape
cloud_init_flash machyp kind msg = redirected (
    bytes "/admin/machines/"
    ++ (machyp ++ (bytes "/cloud-init?flash=" ++ (escape msg ++ (bytes "&kind=" ++ kind)))))

-- `normalizeTemplateName`
unfoldable pub normalize_template_name : Text → Text
normalize_template_name s = trim_space s

-- `isEditableTemplate`
unfoldable pub is_editable_template : Text → Bool
is_editable_template rel = is_listed rel list_editable_templates

-- A name that both forms of a template accept.
unfoldable pub is_template_name : Text → Bool
unfolding is_editable_template
is_template_name rel = not (is_empty rel || not (is_editable_template rel))

-- The answer after the files were touched.
unfoldable pub answered : Answer → FileMap × Bool → FileMap × Answer
answered done (files, true) = (files, done)
answered done (files, false) = (files, refused 500)

-- `handleAdminTemplateSave`; `dir` is `assets.OverrideDir()`.
unfoldable pub template_save : Text → Fault → Text → Text → FileMap → FileMap × Answer
unfolding normalize_template_name is_template_name template_path answered
template_save dir fault raw content files =
    let rel = normalize_template_name raw in
    if is_template_name rel
    then (if is_empty dir
        then (files, refused 400)
        else answered
            (redirected (bytes "/admin/templates/" ++ (raw ++ bytes "?flash=saved&kind=ok")))
            (replace_file fault (template_path dir rel) content files))
    else (files, refused 400)

-- `handleAdminTemplateReset`
unfoldable pub template_reset : Text → Fault → Text → FileMap → FileMap × Answer
unfolding normalize_template_name is_template_name template_path answered
template_reset dir fault raw files =
    let rel = normalize_template_name raw in
    if is_template_name rel
    then (if is_empty dir
        then (files, refused 400)
        else answered
            (redirected (bytes "/admin/templates/" ++ (rel ++ bytes "?flash=reset&kind=ok")))
            (remove_file fault (template_path dir rel) files))
    else (files, refused 400)

-- `handleAdminCloudInitSave` behind the canonical address
unfoldable pub cloud_init_save_for :
    Settings → Fault → Option Text → Text → FileMap → FileMap × Answer
unfolding answered cloud_init_flash
cloud_init_save_for s fault none content files = (files, refused 400)
cloud_init_save_for s fault (some mac) content files =
    if is_empty (override_path s mac)
    then (files, refused 400)
    else if defines_phone_home content
    then (
      files,
      cloud_init_flash (hyphens mac) (bytes "err") (
          text
            "remove phone_home — pxe-beacon appends its own tokenized phone_home (it owns the callback)"),
    )
    else answered (cloud_init_flash (hyphens mac) (bytes "ok") (bytes "saved"))
        (replace_file fault (override_path s mac) content files)

unfoldable pub cloud_init_save : Settings → Fault → Text → Text → FileMap → FileMap × Answer
unfolding cloud_init_save_for
cloud_init_save s fault raw content files =
    cloud_init_save_for s fault (canonical_mac raw) content files

-- `handleAdminCloudInitReset`
unfoldable pub cloud_init_reset_for : Settings → Fault → Option Text → FileMap → FileMap × Answer
unfolding answered cloud_init_flash
cloud_init_reset_for s fault none files = (files, refused 400)
cloud_init_reset_for s fault (some mac) files =
    if is_empty (override_path s mac)
    then (files, refused 400)
    else answered (cloud_init_flash (hyphens mac) (bytes "ok") (bytes "override deleted"))
        (remove_file fault (override_path s mac) files)

unfoldable pub cloud_init_reset : Settings → Fault → Text → FileMap → FileMap × Answer
unfolding cloud_init_reset_for
cloud_init_reset s fault raw files = cloud_init_reset_for s fault (canonical_mac raw) files

-- The forms that write files.
pub data Form : Type 0 where
  save_template : Text → Text → Form
  reset_template : Text → Form
  save_cloud_init : Text → Text → Form
  reset_cloud_init : Text → Form

-- The handler of a form. main gives the pages and the templates the same directory.
unfoldable pub handle : Settings → Fault → Form → FileMap → FileMap × Answer
handle s fault (save_template raw content) files = template_save s.data_dir fault raw content files
handle s fault (reset_template raw) files = template_reset s.data_dir fault raw files
handle s fault (save_cloud_init raw content) files = cloud_init_save s fault raw content files
handle s fault (reset_cloud_init raw) files = cloud_init_reset s fault raw files

-- `net.IP.IsLoopback` on the sixteen bytes that `net.ParseIP` returns
unfoldable pub is_loopback : List ℕ → Bool
is_loopback ip =
    (text_eq (take 12 ip) (0 ∷ 0 ∷ 0 ∷ 0 ∷ 0 ∷ 0 ∷ 0 ∷ 0 ∷ 0 ∷ 0 ∷ 255 ∷ 255 ∷ [])
      && (byte_at ip 12 == 127))
    || text_eq ip (0 ∷ 0 ∷ 0 ∷ 0 ∷ 0 ∷ 0 ∷ 0 ∷ 0 ∷ 0 ∷ 0 ∷ 0 ∷ 0 ∷ 0 ∷ 0 ∷ 0 ∷ 1 ∷ [])

-- A request: the address of the client, whether it is a POST, and the field "csrf" of its form;
-- `none` is a form that cannot be parsed.
pub record Request : Type 0 where
  pub remote : Text
  pub is_post : Bool
  pub csrf : Option Text

unfoldable pub token_refusal : Text → Option Text → Option Answer
token_refusal token none = some (refused 400)
token_refusal token (some sent) = if text_eq sent token then none else some (refused 403)

-- The refusal of `csrfGuard`, if there is one.
unfoldable pub csrf_refusal : Text → Request → Option Answer
unfolding token_refusal
csrf_refusal token r = if r.is_post then token_refusal token r.csrf else none

abbrev pub refuse_or {ℓ} : {S : Type ℓ} → S → S × Answer → Option Answer → S × Answer
refuse_or s next none = next
refuse_or s next (some refusal) = (s, refusal)

-- `csrfGuard`
unfoldable pub csrf_guard {ℓ} : {S : Type ℓ} → Text → Request → S → S × Answer → S × Answer
unfolding csrf_refusal
csrf_guard token r s next = refuse_or s next (csrf_refusal token r)

-- `host_of` is the host that `net.SplitHostPort` finds, and `parse_ip` is `net.ParseIP`.
module _ (host_of : Text → Option Text) (parse_ip : Text → Option (List ℕ)) where
  unfoldable pub is_local : Text → Bool
  unfolding is_loopback
  is_local remote =
      let host : Text = elim (host_of remote) [ none ↦ remote | some h ↦ h ] in
      elim (parse_ip host) [ none ↦ false | some ip ↦ is_loopback ip ]

  -- `loopbackOnly`
  unfoldable pub loopback_only {ℓ} : {S : Type ℓ} → Request → S → S × Answer → S × Answer
  unfolding is_local
  loopback_only r s next = if is_local r.remote then next else (s, refused 403)

  -- The route of a form.
  unfoldable pub post_form : Settings → Text → Fault → Request → Form → FileMap → FileMap × Answer
  unfolding loopback_only csrf_guard handle
  post_form s token fault r form files =
      loopback_only r files (csrf_guard token r files (handle s fault form files))
