-- ===== src/Admin/Replay.antt =====
-- Any sequence of forms against what the templates and the overrides are replaced by.
use pxe_beacon.Base.{
  ℕ, ◌≡◌, refl, sym, ap, ◌∙◌, inl, inr, Bool, true, false, ◌&&◌, Option, none, some, List, [], ◌∷◌,
  if◌then◌else◌, Bool-cases, is_empty, Text, text_eq, lookup,
}
use pxe_beacon.Mac.{canonical_mac}
use pxe_beacon.Mac.Canonical.{names}
use pxe_beacon.Assets.{
  list_editable_templates, is_listed, template_path, read_embedded, resolve_override, read_template,
}
use pxe_beacon.Fleet.PhoneHome.{defines_phone_home}
use pxe_beacon.UserData.{Settings, machine_override}
use pxe_beacon.Admin.Files.{FileMap, Fault}
use pxe_beacon.Admin.Paths.{template_path-IsLasting, text_eq-template-override}
use pxe_beacon.Admin.{
  Answer, is_redirected, normalize_template_name, cloud_init_save_for, cloud_init_save,
  cloud_init_reset_for, cloud_init_reset, Form, save_template, reset_template, save_cloud_init,
  reset_cloud_init, handle, Request, post_form,
}
use pxe_beacon.Admin.Guarded.{post_outcome}
use pxe_beacon.Admin.Templates.{on_disk, read_template-template_save, read_template-template_reset}
use pxe_beacon.Admin.CloudInit.{
  not_hit, if_same, saved_override, lookup-cloud_init_save_for, lookup-cloud_init_reset_for,
  override-template_save, override-template_reset, override-cloud_init_save,
  override-cloud_init_reset,
}

module _ (embedded : Text → Option Text) (s : Settings) (fault : Fault) (rel : Text)
    (listed : is_listed rel list_editable_templates ≡ true) (files : FileMap) where
  -- What is served of a template follows what is read at its path.
  same_template :
      (files' : FileMap)
      → (is_empty s.data_dir ≡ false
          → lookup (template_path s.data_dir rel) files'
            ≡ lookup (template_path s.data_dir rel) files)
      → read_template embedded s.data_dir (on_disk files') rel
        ≡ read_template embedded s.data_dir (on_disk files) rel
  unfolding read_template resolve_override
  same_template files' h = elim (Bool-cases (is_empty s.data_dir)) [
    | inl e ↦ rw (read_template, resolve_override, e) refl
    | inr e ↦ rw (read_template, resolve_override, e, h e) refl
  ]

  template-save_for :
      (raw content : Text) (o : Option Text)
      → canonical_mac raw ≡ o
      → read_template embedded s.data_dir
          (on_disk (cloud_init_save_for s fault o content files).0)
          rel
        ≡ read_template embedded s.data_dir (on_disk files) rel
  template-save_for raw content none spelled = unfold cloud_init_save_for in refl
  template-save_for raw content (some d) spelled = same_template _ λ set.
      lookup-cloud_init_save_for s fault d (template_path s.data_dir rel) files content
        (template_path-IsLasting s.data_dir set rel listed)
      ∙ ap
          (λ (r : Option Text).
            if defines_phone_home content then lookup (template_path s.data_dir rel) files else r)
          (not_hit _ _ (some content) _
            (λ h. (text_eq-template-override s.data_dir set s refl raw d spelled rel listed).1))
      ∙ if_same (defines_phone_home content) _

  template-reset_for :
      (raw : Text) (o : Option Text)
      → canonical_mac raw ≡ o
      → read_template embedded s.data_dir (on_disk (cloud_init_reset_for s fault o files).0) rel
        ≡ read_template embedded s.data_dir (on_disk files) rel
  template-reset_for raw none spelled = unfold cloud_init_reset_for in refl
  template-reset_for raw (some d) spelled = same_template _ λ set.
      lookup-cloud_init_reset_for s fault d (template_path s.data_dir rel) files
      ∙ not_hit _ _ none _
          (λ h. (text_eq-template-override s.data_dir set s refl raw d spelled rel listed).1)

-- What is served of the template `rel` after a form that was redirected or not; `original` is the
-- embedded file.
unfoldable pub template_after : Text → Option Text → Form → Bool → Option Text → Option Text
template_after rel original (save_template raw content) done before =
    if done && text_eq (normalize_template_name raw) rel then some content else before
template_after rel original (reset_template raw) done before =
    if done && text_eq (normalize_template_name raw) rel then original else before
template_after rel original (save_cloud_init raw content) done before = before
template_after rel original (reset_cloud_init raw) done before = before

-- The override of the machine `c` after such a form.
unfoldable pub override_after : Text → Form → Bool → Option Text → Option Text
unfolding saved_override
override_after c (save_template raw content) done before = before
override_after c (reset_template raw) done before = before
override_after c (save_cloud_init raw content) done before =
    saved_override done content (canonical_mac raw) c before
override_after c (reset_cloud_init raw) done before =
    if done && names (canonical_mac raw) c then none else before

template-handle :
    (embedded : Text → Option Text) (s : Settings) (fault : Fault) (rel : Text)
    → is_listed rel list_editable_templates ≡ true
    → (form : Form) (files : FileMap)
    → read_template embedded s.data_dir (on_disk (handle s fault form files).0) rel
      ≡ template_after rel
          (read_embedded embedded rel)
          form
          (is_redirected (handle s fault form files).1)
          (read_template embedded s.data_dir (on_disk files) rel)
unfolding handle template_after cloud_init_save cloud_init_reset
template-handle embedded s fault rel listed (save_template raw content) files =
    read_template-template_save embedded s.data_dir fault raw rel files listed content
template-handle embedded s fault rel listed (reset_template raw) files =
    read_template-template_reset embedded s.data_dir fault raw rel files listed
template-handle embedded s fault rel listed (save_cloud_init raw content) files =
    template-save_for embedded s fault rel listed files raw content (canonical_mac raw) refl
template-handle embedded s fault rel listed (reset_cloud_init raw) files =
    template-reset_for embedded s fault rel listed files raw (canonical_mac raw) refl

override-handle :
    (s : Settings) (fault : Fault) (mac c : Text)
    → canonical_mac mac ≡ some c
    → (form : Form) (files : FileMap)
    → machine_override (on_disk (handle s fault form files).0) s c
      ≡ override_after c form
          (is_redirected (handle s fault form files).1)
          (machine_override (on_disk files) s c)
unfolding handle override_after
override-handle s fault mac c named (save_template raw content) files =
    override-template_save s fault mac c named files raw content
override-handle s fault mac c named (reset_template raw) files =
    override-template_reset s fault mac c named files raw
override-handle s fault mac c named (save_cloud_init raw content) files =
    override-cloud_init_save s fault mac c named files raw content
override-handle s fault mac c named (reset_cloud_init raw) files =
    override-cloud_init_reset s fault mac c named files raw

-- A form that was not redirected is as if it were not sent.
template_after_undone :
    (rel : Text) (original : Option Text) (form : Form) (before : Option Text)
    → template_after rel original form false before ≡ before
unfolding template_after
template_after_undone rel original (save_template raw content) before = refl
template_after_undone rel original (reset_template raw) before = refl
template_after_undone rel original (save_cloud_init raw content) before = refl
template_after_undone rel original (reset_cloud_init raw) before = refl

override_after_undone :
    (c : Text) (form : Form) (before : Option Text) → override_after c form false before ≡ before
unfolding override_after
override_after_undone c (save_template raw content) before = refl
override_after_undone c (reset_template raw) before = refl
override_after_undone c (save_cloud_init raw content) before =
    if_same (defines_phone_home content) before
override_after_undone c (reset_cloud_init raw) before = refl

-- A form that is posted, with the step at which the system fails.
pub record Post : Type 0 where
  pub request : Request
  pub fault : Fault
  pub form : Form

-- The forms with whether they were redirected, against what they leave of a template and of an
-- override.
abbrev pub Log : Type 0
Log = List (Form × Bool)

unfoldable pub replay_template : Text → Option Text → Log → Option Text → Option Text
replay_template rel original [] before = before
replay_template rel original ((form, done) ∷ log) before =
    replay_template rel original log (template_after rel original form done before)

unfoldable pub replay_override : Text → Log → Option Text → Option Text
replay_override c [] before = before
replay_override c ((form, done) ∷ log) before =
    replay_override c log (override_after c form done before)

module _ (host_of : Text → Option Text) (parse_ip : Text → Option (List ℕ)) (token : Text)
    (s : Settings) where
  -- One form: the files that it leaves, and whether it was redirected.
  unfoldable pub answer_post : Post → FileMap → FileMap × Answer
  answer_post p files = post_form host_of parse_ip s token p.fault p.request p.form files

  unfoldable pub run : List Post → FileMap → FileMap × Log
  unfolding answer_post
  run [] files = (files, [])
  run (p ∷ posts) files =
      let (after, answer) = answer_post p files in
      let (end, log) = run posts after in (end, (p.form, is_redirected answer) ∷ log)

  -- A form that is refused at the guards is no exception.
  template-answer_post :
      (embedded : Text → Option Text) (rel : Text)
      → is_listed rel list_editable_templates ≡ true
      → (p : Post) (files : FileMap)
      → read_template embedded s.data_dir (on_disk (answer_post p files).0) rel
        ≡ template_after rel
            (read_embedded embedded rel)
            p.form
            (is_redirected (answer_post p files).1)
            (read_template embedded s.data_dir (on_disk files) rel)
  unfolding answer_post
  template-answer_post embedded rel listed p files =
      elim (post_outcome host_of parse_ip s token p.fault p.request p.form files) [
        | inl handled ↦ rw handled (template-handle embedded s p.fault rel listed p.form files)
        | inr (k, stopped) ↦
            rw stopped (unfold is_redirected in sym (template_after_undone rel _ p.form _))
      ]

  override-answer_post :
      (mac c : Text)
      → canonical_mac mac ≡ some c
      → (p : Post) (files : FileMap)
      → machine_override (on_disk (answer_post p files).0) s c
        ≡ override_after c p.form
            (is_redirected (answer_post p files).1)
            (machine_override (on_disk files) s c)
  unfolding answer_post
  override-answer_post mac c named p files =
      elim (post_outcome host_of parse_ip s token p.fault p.request p.form files) [
        | inl handled ↦ rw handled (override-handle s p.fault mac c named p.form files)
        | inr (k, stopped) ↦
            rw stopped (unfold is_redirected in sym (override_after_undone c p.form _))
      ]

  -- Whatever forms are posted, from wherever, and at whatever step the system fails: an editable
  -- template is served as the redirected forms say, the last save, or the embedded file after a
  -- reset. The same holds of the override of a machine, which a form changes only if its content
  -- defines no phone_home. No form for one file shows in another.
  pub run_refines :
      (embedded : Text → Option Text) (rel mac c : Text)
      → is_listed rel list_editable_templates ≡ true
      → canonical_mac mac ≡ some c
      → (posts : List Post) (files : FileMap)
      → (read_template embedded s.data_dir (on_disk (run posts files).0) rel
          ≡ replay_template rel
              (read_embedded embedded rel)
              (run posts files).1
              (read_template embedded s.data_dir (on_disk files) rel))
        × (machine_override (on_disk (run posts files).0) s c
            ≡ replay_override c (run posts files).1 (machine_override (on_disk files) s c))
  unfolding run replay_template replay_override
  run_refines embedded rel mac c listed named [] files = (refl, refl)
  run_refines embedded rel mac c listed named (p ∷ posts) files =
      let (served, overridden) =
        run_refines embedded rel mac c listed named posts (answer_post p files).0 in
      (
        served
            ∙ ap
                (replay_template rel (read_embedded embedded rel)
                  (run posts (answer_post p files).0).1)
                (template-answer_post embedded rel listed p files),
        overridden
            ∙ ap (replay_override c (run posts (answer_post p files).0).1)
                (override-answer_post mac c named p files),
      )
