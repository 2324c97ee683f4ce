-- ===== src/Admin/Served.antt =====
-- The files of the forms in the documents that machines are served, and what the editors show.
use pxe_beacon.Base.{
  ℕ, ◌≡◌, refl, sym, ap, ◌∙◌, subst, inl, inr, arith, Bool, true, false, not, ◌&&◌, ◌||◌, Option,
  none, some, List, [], ◌∷◌, if◌then◌else◌, Bool-cases, Option-cases, is_empty, Text, bytes,
  text_eq, text_eq_refl, Result, ok, err,
}
use pxe_beacon.Mac.{canonical_mac}
use pxe_beacon.Mac.Canonical.{names}
use pxe_beacon.Assets.{
  list_editable_templates, is_listed, template_path, read_embedded, resolve_override, read_template,
  read_default,
}
use pxe_beacon.Fleet.{Fleet, Profile, lookup_machine}
use pxe_beacon.Fleet.Loaded.{Each}
use pxe_beacon.Fleet.PhoneHome.{defines_phone_home}
use pxe_beacon.UserData.{
  Settings, Vars, no_default, unreadable, machine_override, source_of, rendered, document,
}
use pxe_beacon.Admin.Files.{FileMap, Fault}
use pxe_beacon.Admin.{
  is_redirected, normalize_template_name, is_editable_template, cloud_init_save, Form,
  save_template, reset_template, save_cloud_init, reset_cloud_init,
}
use pxe_beacon.Admin.Views.{
  TemplateView, template_view_of, template_view, CloudInitView, fleet_seed, seed,
  cloud_init_view_of, cloud_init_view_for, cloud_init_view,
}
use pxe_beacon.Admin.Templates.{on_disk}
use pxe_beacon.Admin.CloudInit.{saved_override, override-cloud_init_save}
use pxe_beacon.Admin.Replay.{Post, Log, override_after, replay_override, run, run_refines}

-- An override that leaves the callback to the server.
abbrev pub LeavesCallback : Option Text → Type 0
LeavesCallback = Each (λ content. defines_phone_home content ≡ false)

if-LeavesCallback :
    (b : Bool) (o before : Option Text)
    → LeavesCallback o
    → LeavesCallback before
    → LeavesCallback (if b then o else before)
if-LeavesCallback true o before h k = h
if-LeavesCallback false o before h k = k

override_after-LeavesCallback :
    (c : Text) (form : Form) (done : Bool) (before : Option Text)
    → LeavesCallback before
    → LeavesCallback (override_after c form done before)
unfolding override_after saved_override
override_after-LeavesCallback c (save_template raw content) done before h = h
override_after-LeavesCallback c (reset_template raw) done before h = h
override_after-LeavesCallback c (reset_cloud_init raw) done before h =
    if-LeavesCallback (done && names (canonical_mac raw) c) none before tt h
override_after-LeavesCallback c (save_cloud_init raw content) done before h =
    elim (Bool-cases (defines_phone_home content)) [
      | inl bad ↦ rw bad h
      | inr good ↦
          rw good
            (if-LeavesCallback (done && names (canonical_mac raw) c) (some content) before good h)
    ]

replay_override-LeavesCallback :
    (c : Text) (log : Log) (before : Option Text)
    → LeavesCallback before
    → LeavesCallback (replay_override c log before)
unfolding replay_override
replay_override-LeavesCallback c [] before h = h
replay_override-LeavesCallback c ((form, done) ∷ log) before h =
    replay_override-LeavesCallback c log (override_after c form done before)
      (override_after-LeavesCallback c form done before h)

-- Whatever forms are posted, a machine's override that did not define phone_home, or was not there,
-- does not define it afterwards.
pub run-LeavesCallback :
    (host_of : Text → Option Text) (parse_ip : Text → Option (List ℕ)) (token : Text) (s : Settings)
    (mac c : Text)
    → canonical_mac mac ≡ some c
    → (posts : List Post) (files : FileMap) → LeavesCallback (machine_override (on_disk files) s c)
    → LeavesCallback (machine_override (on_disk (run host_of parse_ip token s posts files).0) s c)
run-LeavesCallback host_of parse_ip token s mac c named posts files h =
    subst LeavesCallback
      (sym
        (run_refines host_of parse_ip token s (λ p. none) (bytes "autoexec/menu.ipxe") mac c
          (unfold is_listed text_eq in refl) named posts files).1)
      (replay_override-LeavesCallback c (run host_of parse_ip token s posts files).1 _ h)

saved_hit :
    (content c : Text) (before : Option Text)
    → defines_phone_home content ≡ false
    → saved_override true content (some c) c before ≡ some content
unfolding saved_override names
saved_hit content c before good = rw (good, text_eq_refl c) refl

-- After a form that saves a machine's override and is redirected, where the content defines no
-- phone_home, the machine's document is rendered from the content of the form, whatever the
-- fleet names as its cloud_init file.
pub document-cloud_init_save :
    (hmac : Text → Text → Text) (default_ : Option Text) (render : Text → Vars → Option Text)
    (is_map : Text → Bool) (s : Settings) (fault : Fault) (raw content c : Text) (files : FileMap)
    (f : Fleet) (now : ℕ)
    → canonical_mac raw ≡ some c
    → defines_phone_home content ≡ false
    → is_redirected (cloud_init_save s fault raw content files).1 ≡ true
    → document hmac
        (on_disk (cloud_init_save s fault raw content files).0)
        default_
        render
        is_map
        s
        f
        now
        c
      ≡ rendered hmac
          (on_disk (cloud_init_save s fault raw content files).0)
          default_
          render
          is_map
          s
          now
          c
          (lookup_machine f c)
          (ok content)
unfolding document
document-cloud_init_save hmac default_ render is_map s fault raw content c files f now named good
      done =
    let read = on_disk (cloud_init_save s fault raw content files).0 in
    let found : machine_override read s c ≡ some content =
      override-cloud_init_save s fault raw c named files raw content
      ∙ rw (done, named) (saved_hit content c _ good) in
    ap
      (λ (o : Option Text).
        rendered hmac read default_ render is_map s now c (lookup_machine f c)
          (source_of hmac read default_ render is_map s (lookup_machine f c) o))
      found
    ∙ unfold source_of in refl

ok-injective {ℓ κ} :
    {E : Type κ} {A : Type ℓ} {a b : A} → ◌≡◌ {A = Result E A} (ok a) (ok b) → a ≡ b
ok-injective h = cc

view_gate :
    (b : Bool) (x v : CloudInitView)
    → ◌≡◌ {A = Result ℕ CloudInitView} (if b then err 400 else ok x) (ok v)
    → x ≡ v
view_gate true x v h = cc
view_gate false x v h = ok-injective h

or_else : Option Text → Text → Option Text
or_else (some a) b = some a
or_else none b = some b

view_shown :
    (rel path : Text) (o : Option Text) (b : Text) (v : TemplateView)
    → template_view_of rel path o b ≡ v
    → (v.name ≡ rel) × (or_else o b ≡ some v.content) × (some b ≡ some v.embedded_content)
unfolding template_view_of or_else
view_shown rel path none b v h = (
  sym (ap (λ (w : TemplateView). w.name) h),
  ap (λ (w : TemplateView). some w.content) h,
  ap (λ (w : TemplateView). some w.embedded_content) h,
)
view_shown rel path (some a) b v h = (
  sym (ap (λ (w : TemplateView). w.name) h),
  ap (λ (w : TemplateView). some w.content) h,
  ap (λ (w : TemplateView). some w.embedded_content) h,
)

read_template_or :
    (embedded : Text → Option Text) (dir : Text) (read : Text → Option Text) (rel b : Text)
    → read_embedded embedded rel ≡ some b
    → (o : Option Text) → resolve_override dir read rel ≡ o
    → read_template embedded dir read rel ≡ or_else o b
unfolding read_template or_else
read_template_or embedded dir read rel b e none h = rw (read_template, h) e
read_template_or embedded dir read rel b e (some a) h = rw (read_template, h) refl

module _ (embedded : Text → Option Text) (read : Text → Option Text) where
  -- The editor of a template shows what is served of it.
  pub template_view-read_template :
      (dir raw : Text) (v : TemplateView)
      → template_view embedded read dir raw ≡ ok v
      → (v.name ≡ normalize_template_name raw)
        × (is_listed (normalize_template_name raw) list_editable_templates ≡ true)
        × (read_template embedded dir read (normalize_template_name raw) ≡ some v.content)
        × (read_embedded embedded (normalize_template_name raw) ≡ some v.embedded_content)
  unfolding template_view
  template_view-read_template dir raw v h =
      let rel = normalize_template_name raw in
      elim (Bool-cases (is_empty rel || not (is_editable_template rel))) [
        | inl bad ↦ absurd (let wrong : err 400 ≡ ok v = rw bad at h in cc)
        | inr good ↦ elim (Option-cases (read_embedded embedded rel)) [
          | inl gone ↦ absurd (let wrong : err 500 ≡ ok v = rw (good, gone) at h in cc)
          | inr (b, e) ↦
              let path = if is_empty dir then [] else template_path dir rel in
              let override = resolve_override dir read rel in
              let same : ◌≡◌ {A = Result ℕ TemplateView} (ok (template_view_of rel path override b))
                  (ok v) =
                unfold resolve_override in (rw (good, e) at h) in
              let (name, content, original) =
                view_shown rel path override b v (ok-injective same) in
              (
                name,
                unfold is_editable_template in ground arith,
                read_template_or embedded dir read rel b e _ refl ∙ content,
                e ∙ original,
              )
        ]
      ]

  seed_default :
      (dir : Text) (p : Profile) (t : Text)
      → is_empty p.cloud_init ≡ true
      → read_default embedded dir read (bytes "cloud-init.yaml") ≡ some t
      → (seed embedded read dir p).0 ≡ t
  unfolding seed fleet_seed
  seed_default dir p t unset e = rw (seed, fleet_seed, unset, e) refl

  seed_fleet :
      (dir : Text) (p : Profile) (t : Text)
      → is_empty p.cloud_init ≡ false
      → read p.cloud_init ≡ some t
      → is_empty t ≡ false
      → (seed embedded read dir p).0 ≡ t
  unfolding seed fleet_seed
  seed_fleet dir p t set e nonempty = rw (seed, fleet_seed, set, e, nonempty) refl

  module _ (hmac : Text → Text → Text) (render : Text → Vars → Option Text) (is_map : Text → Bool)
      (s : Settings) (p : Profile) (c t : Text) (nonempty : is_empty t ≡ false) where
    view_content :
        (o : Option Text)
        → source_of hmac read
            (read_default embedded s.data_dir read (bytes "cloud-init.yaml"))
            render
            is_map
            s
            p
            o
          ≡ ok t
        → (cloud_init_view_of embedded read s p c o).content ≡ t
    unfolding cloud_init_view_of source_of
    view_content (some b) src = ok-injective src
    view_content none src = elim (Bool-cases (is_empty p.cloud_init)) [
      | inl unset ↦
          elim (Option-cases (read_default embedded s.data_dir read (bytes "cloud-init.yaml"))) [
            | inl gone ↦ absurd (let wrong : err no_default ≡ ok t = rw (unset, gone) at src in cc)
            | inr (b, e) ↦
                seed_default s.data_dir p t unset
                  (e ∙ ap some (ok-injective (rw (unset, e) at src)))
          ]
      | inr set ↦ elim (Option-cases (read p.cloud_init)) [
        | inl gone ↦ absurd (let wrong : err unreadable ≡ ok t = rw (set, gone) at src in cc)
        | inr (b, e) ↦
            seed_fleet s.data_dir p t set (e ∙ ap some (ok-injective (rw (set, e) at src))) nonempty
      ]
    ]

  -- The editor of a machine's document shows the text that its document is rendered from, if this
  -- text is there and is not empty.
  pub cloud_init_view-source_of :
      (hmac : Text → Text → Text) (render : Text → Vars → Option Text) (is_map : Text → Bool)
      (s : Settings) (f : Fleet) (mac c t : Text) (v : CloudInitView)
      → canonical_mac mac ≡ some c
      → cloud_init_view embedded read s f mac ≡ ok v
      → source_of hmac read
          (read_default embedded s.data_dir read (bytes "cloud-init.yaml"))
          render
          is_map
          s
          (lookup_machine f c)
          (machine_override read s c)
        ≡ ok t
      → is_empty t ≡ false
      → v.content ≡ t
  unfolding cloud_init_view cloud_init_view_for
  cloud_init_view-source_of hmac render is_map s f mac c t v named h src nonempty =
      let shown =
        view_gate (is_empty s.data_dir)
          (cloud_init_view_of embedded read s (lookup_machine f c) c (machine_override read s c)) v
          (rw named at h) in
      ap (λ (w : CloudInitView). w.content) (sym shown)
      ∙ view_content hmac render is_map s (lookup_machine f c) c t nonempty
          (machine_override read s c) src
