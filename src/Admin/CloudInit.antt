-- ===== src/Admin/CloudInit.antt =====
-- What the forms leave of the cloud-init overrides of machines.
use pxe_beacon.Base.{
  ◌≡◌, refl, sym, ◌∙◌, inl, inr, Bool, true, false, ◌&&◌, Option, none, some, [], if◌then◌else◌,
  Bool-cases, is_empty, Text, text_eq, lookup,
}
use pxe_beacon.Mac.{canonical_mac}
use pxe_beacon.Mac.Canonical.{names}
use pxe_beacon.Fleet.PhoneHome.{defines_phone_home}
use pxe_beacon.UserData.{Settings, override_path, machine_override}
use pxe_beacon.Admin.Files.{
  FileMap, Fault, replace_file, remove_file, IsLasting, lookup-replace_file, lookup-remove_file,
}
use pxe_beacon.Admin.Paths.{
  text_eq-override_path, override_path-cons, override_path-IsLasting, text_eq-template-override,
}
use pxe_beacon.Admin.{
  normalize_template_name, Answer, redirected, refused, is_redirected, answered, cloud_init_flash,
  template_save, template_reset, cloud_init_save_for, cloud_init_save, cloud_init_reset_for,
  cloud_init_reset,
}
use pxe_beacon.Admin.Templates.{
  on_disk, lookup-template_save, lookup-template_reset, template_save-listed, template_reset-listed,
}

-- What is read behind the tests of a form, given what is read behind its last step; `bad` is a
-- content that the form rejects.
gated-lookup :
    (unset bad : Bool) (flash url : Text) (r : FileMap × Bool) (files : FileMap) (target p : Text)
    (v : Option Text)
    → lookup p r.0 ≡ (if r.1 && text_eq target p then v else lookup p files)
    → let out : FileMap × Answer =
        if unset
        then (files, refused 400)
        else if bad
        then (files, redirected flash)
        else answered (redirected url) r in
      lookup p out.0 ≡ (
        if bad
        then lookup p files
        else if is_redirected out.1 && text_eq target p
        then v
        else lookup p files)
unfolding answered is_redirected
gated-lookup true true flash url r files target p v h = refl
gated-lookup true false flash url r files target p v h = refl
gated-lookup false true flash url r files target p v h = refl
gated-lookup false false flash url (after, true) files target p v h = h
gated-lookup false false flash url (after, false) files target p v h = h

module _ (s : Settings) (fault : Fault) (c p : Text) (files : FileMap) where
  pub lookup-cloud_init_save_for :
      (content : Text)
      → IsLasting p
      → lookup p (cloud_init_save_for s fault (some c) content files).0 ≡ (
          if defines_phone_home content
          then lookup p files
          else if is_redirected (cloud_init_save_for s fault (some c) content files).1
              && text_eq (override_path s c) p
          then some content
          else lookup p files)
  unfolding cloud_init_save_for cloud_init_flash
  lookup-cloud_init_save_for content lasting =
      gated-lookup (is_empty (override_path s c)) (defines_phone_home content) _ _
        (replace_file fault (override_path s c) content files) files (override_path s c) p
        (some content) (lookup-replace_file fault (override_path s c) content p files lasting)

  pub lookup-cloud_init_reset_for : lookup p (cloud_init_reset_for s fault (some c) files).0 ≡ (
      if is_redirected (cloud_init_reset_for s fault (some c) files).1
        && text_eq (override_path s c) p
      then none
      else lookup p files)
  unfolding cloud_init_reset_for cloud_init_flash
  lookup-cloud_init_reset_for =
      gated-lookup (is_empty (override_path s c)) false [] _
        (remove_file fault (override_path s c) files) files (override_path s c) p none
        (lookup-remove_file fault (override_path s c) p files)

-- Without a directory no machine has an override.
unset_override :
    (read : Text → Option Text) (s : Settings) (c : Text)
    → is_empty s.data_dir ≡ true
    → (is_empty (override_path s c) ≡ true) × (machine_override read s c ≡ none)
unfolding machine_override override_path
unset_override read s c e = (rw e refl, rw e refl)

-- What is read as an override follows what is read at its path.
override_if :
    (s : Settings) (c : Text) (files files' : FileMap) (b : Bool) (v : Option Text)
    → (is_empty (override_path s c) ≡ true → b ≡ false)
    → lookup (override_path s c) files' ≡ (if b then v else lookup (override_path s c) files)
    → machine_override (on_disk files') s c
      ≡ (if b then v else machine_override (on_disk files) s c)
unfolding machine_override
override_if s c files files' b v unset h = elim (Bool-cases (is_empty (override_path s c))) [
  | inl e ↦ rw (unset e, e) refl
  | inr e ↦ elim (Bool-cases b) [
    | inl yes_set ↦ rw (e, yes_set, h, yes_set) refl
    | inr kept ↦ rw (e, kept, h, kept) refl
  ]
]

pub not_hit :
    (b t : Bool) (v w : Option Text) → (b ≡ true → t ≡ false) → (if b && t then v else w) ≡ w
not_hit true t v w e = rw (e refl) refl
not_hit false t v w e = refl

module _ (s : Settings) (fault : Fault) (mac c : Text) (named : canonical_mac mac ≡ some c)
    (files : FileMap) where
  -- The forms of the templates leave the overrides of the machines.
  pub override-template_save :
      (raw content : Text)
      → machine_override (on_disk (template_save s.data_dir fault raw content files).0) s c
        ≡ machine_override (on_disk files) s c
  override-template_save raw content = elim (Bool-cases (is_empty s.data_dir)) [
    | inl e ↦ (unset_override _ s c e).1 ∙ sym (unset_override _ s c e).1
    | inr e ↦
        override_if s c files _ false none (λ u. refl)
          (lookup-template_save s.data_dir fault raw (override_path s c) files content
              (override_path-IsLasting s.data_dir e s refl mac c named)
            ∙ not_hit _ _ (some content) (lookup (override_path s c) files) (λ h.
              (text_eq-template-override s.data_dir e s refl mac c named
                (normalize_template_name raw)
                (template_save-listed s.data_dir fault raw content files h)).0))
  ]

  pub override-template_reset :
      (raw : Text)
      → machine_override (on_disk (template_reset s.data_dir fault raw files).0) s c
        ≡ machine_override (on_disk files) s c
  override-template_reset raw = elim (Bool-cases (is_empty s.data_dir)) [
    | inl e ↦ (unset_override _ s c e).1 ∙ sym (unset_override _ s c e).1
    | inr e ↦
        override_if s c files _ false none (λ u. refl)
          (lookup-template_reset s.data_dir fault raw (override_path s c) files
            ∙ not_hit _ _ none (lookup (override_path s c) files) (λ h.
              (text_eq-template-override s.data_dir e s refl mac c named
                (normalize_template_name raw)
                (template_reset-listed s.data_dir fault raw files h)).0))
  ]

pub if_same {ℓ} : {A : Type ℓ} (b : Bool) (x : A) → (if b then x else x) ≡ x
if_same true x = refl
if_same false x = refl

-- What the override of the machine `c` is after the form of the machine `o`.
unfoldable pub saved_override : Bool → Text → Option Text → Text → Option Text → Option Text
saved_override done content o c before =
    if defines_phone_home content
    then before
    else if done && names o c
    then some content
    else before

module _ (s : Settings) (fault : Fault) (mac c : Text) (named : canonical_mac mac ≡ some c)
    (files : FileMap) where
  pub save_unset :
      (content d : Text)
      → is_empty s.data_dir ≡ true
      → cloud_init_save_for s fault (some d) content files ≡ (files, refused 400)
  unfolding cloud_init_save_for
  save_unset content d e = rw (unset_override (on_disk files) s d e).0 refl

  pub reset_unset :
      (d : Text)
      → is_empty s.data_dir ≡ true
      → cloud_init_reset_for s fault (some d) files ≡ (files, refused 400)
  unfolding cloud_init_reset_for
  reset_unset d e = rw (unset_override (on_disk files) s d e).0 refl

  path_set : is_empty s.data_dir ≡ false → is_empty (override_path s c) ≡ true → ⊥
  path_set set u =
      let (b, r, e) = override_path-cons s.data_dir set s refl mac c named in
      absurd (let bad : false ≡ true = rw e at u in cc)

  save_for :
      (raw content : Text) (o : Option Text)
      → canonical_mac raw ≡ o
      → machine_override (on_disk (cloud_init_save_for s fault o content files).0) s c
        ≡ saved_override
            (is_redirected (cloud_init_save_for s fault o content files).1)
            content
            o
            c
            (machine_override (on_disk files) s c)
  unfolding saved_override is_redirected names
  save_for raw content none spelled =
      unfold cloud_init_save_for in sym (if_same (defines_phone_home content) _)
  save_for raw content (some d) spelled = elim (Bool-cases (is_empty s.data_dir)) [
    | inl e ↦ rw (save_unset content d e) (sym (if_same (defines_phone_home content) _))
    | inr e ↦
        let read =
          lookup-cloud_init_save_for s fault d (override_path s c) files content
            (override_path-IsLasting s.data_dir e s refl mac c named) in
        elim (Bool-cases (defines_phone_home content)) [
          | inl bad ↦ rw bad (override_if s c files _ false none (λ u. refl) (rw bad at read))
          | inr good ↦ rw good (
              override_if s c files _ _ (some content) (λ u. absurd (path_set e u))
                (rw (good, text_eq-override_path s.data_dir e s refl raw mac d c spelled named) at
                  read))
        ]
  ]

  reset_for :
      (raw : Text) (o : Option Text)
      → canonical_mac raw ≡ o
      → machine_override (on_disk (cloud_init_reset_for s fault o files).0) s c ≡ (
          if is_redirected (cloud_init_reset_for s fault o files).1 && names o c
          then none
          else machine_override (on_disk files) s c)
  unfolding is_redirected names
  reset_for raw none spelled = unfold cloud_init_reset_for in refl
  reset_for raw (some d) spelled = elim (Bool-cases (is_empty s.data_dir)) [
    | inl e ↦ rw (reset_unset d e) refl
    | inr e ↦
        override_if s c files _ _ none (λ u. absurd (path_set e u))
          (rw (text_eq-override_path s.data_dir e s refl raw mac d c spelled named) at
            (lookup-cloud_init_reset_for s fault d (override_path s c) files))
  ]

  pub override-cloud_init_save :
      (raw content : Text)
      → machine_override (on_disk (cloud_init_save s fault raw content files).0) s c
        ≡ saved_override
            (is_redirected (cloud_init_save s fault raw content files).1)
            content
            (canonical_mac raw)
            c
            (machine_override (on_disk files) s c)
  unfolding cloud_init_save
  override-cloud_init_save raw content = save_for raw content (canonical_mac raw) refl

  pub override-cloud_init_reset :
      (raw : Text)
      → machine_override (on_disk (cloud_init_reset s fault raw files).0) s c ≡ (
          if is_redirected (cloud_init_reset s fault raw files).1 && names (canonical_mac raw) c
          then none
          else machine_override (on_disk files) s c)
  unfolding cloud_init_reset
  override-cloud_init_reset raw = reset_for raw (canonical_mac raw) refl
