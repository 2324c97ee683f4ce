-- ===== src/Admin/Templates.antt =====
-- What the forms leave of the templates.
use pxe_beacon.Base.{
  ◌≡◌, refl, inl, inr, arith, Bool, true, false, ◌&&◌, Option, none, some, if◌then◌else◌,
  Bool-cases, is_empty, ◌++◌, Text, bytes, text_eq, lookup,
}
use pxe_beacon.Assets.{
  list_editable_templates, is_listed, template_path, read_embedded, resolve_override, read_template,
}
use pxe_beacon.Admin.Files.{
  FileMap, Fault, replace_file, remove_file, IsLasting, lookup-replace_file, lookup-remove_file,
}
use pxe_beacon.Admin.Paths.{text_eq-template_path, template_path-IsLasting}
use pxe_beacon.Admin.{
  Answer, redirected, refused, is_redirected, normalize_template_name, is_editable_template,
  is_template_name, answered, template_save, template_reset,
}

abbrev pub on_disk : FileMap → Text → Option Text
on_disk files p = lookup p files

template_name_listed :
    (rel : Text) → is_template_name rel ≡ true → is_listed rel list_editable_templates ≡ true
unfolding is_template_name is_editable_template
template_name_listed rel h = ground arith

-- What is read behind the tests of a form, given what is read behind its last step.
gated-lookup :
    (valid unset : Bool) (url : Text) (r : FileMap × Bool) (files : FileMap) (target p : Text)
    (v : Option Text)
    → lookup p r.0 ≡ (if r.1 && text_eq target p then v else lookup p files)
    → let out : FileMap × Answer =
        if valid
        then (if unset then (files, refused 400) else answered (redirected url) r)
        else (files, refused 400) in
      lookup p out.0 ≡ (if is_redirected out.1 && text_eq target p then v else lookup p files)
unfolding answered is_redirected
gated-lookup false unset url r files target p v h = refl
gated-lookup true true url r files target p v h = refl
gated-lookup true false url (after, true) files target p v h = h
gated-lookup true false url (after, false) files target p v h = h

module _ (dir : Text) (fault : Fault) (raw p : Text) (files : FileMap) where
  pub lookup-template_save :
      (content : Text)
      → IsLasting p
      → lookup p (template_save dir fault raw content files).0 ≡ (
          if is_redirected (template_save dir fault raw content files).1
            && text_eq (template_path dir (normalize_template_name raw)) p
          then some content
          else lookup p files)
  unfolding template_save
  lookup-template_save content lasting =
      let path = template_path dir (normalize_template_name raw) in
      gated-lookup (is_template_name (normalize_template_name raw)) (is_empty dir) _
        (replace_file fault path content files) files path p (some content)
        (lookup-replace_file fault path content p files lasting)

  pub lookup-template_reset : lookup p (template_reset dir fault raw files).0 ≡ (
      if is_redirected (template_reset dir fault raw files).1
        && text_eq (template_path dir (normalize_template_name raw)) p
      then none
      else lookup p files)
  unfolding template_reset
  lookup-template_reset =
      let path = template_path dir (normalize_template_name raw) in
      gated-lookup (is_template_name (normalize_template_name raw)) (is_empty dir) _
        (remove_file fault path files) files path p none (lookup-remove_file fault path p files)

-- Only a name on the list is redirected.
pub template_save-listed :
    (dir : Text) (fault : Fault) (raw content : Text) (files : FileMap)
    → is_redirected (template_save dir fault raw content files).1 ≡ true
    → is_listed (normalize_template_name raw) list_editable_templates ≡ true
unfolding template_save is_redirected
template_save-listed dir fault raw content files h =
    elim (Bool-cases (is_template_name (normalize_template_name raw))) [
      | inl e ↦ template_name_listed (normalize_template_name raw) e
      | inr e ↦ absurd (let bad : false ≡ true = rw e at h in cc)
    ]

pub template_reset-listed :
    (dir : Text) (fault : Fault) (raw : Text) (files : FileMap)
    → is_redirected (template_reset dir fault raw files).1 ≡ true
    → is_listed (normalize_template_name raw) list_editable_templates ≡ true
unfolding template_reset is_redirected
template_reset-listed dir fault raw files h =
    elim (Bool-cases (is_template_name (normalize_template_name raw))) [
      | inl e ↦ template_name_listed (normalize_template_name raw) e
      | inr e ↦ absurd (let bad : false ≡ true = rw e at h in cc)
    ]

module _ (embedded : Text → Option Text) (dir rel : Text) (files : FileMap) where
  -- What is read of a template whose override is set to `v` under a test.
  pub read_template_if :
      (files' : FileMap) (b : Bool) (v : Option Text)
      → (is_empty dir ≡ true → b ≡ false)
      → lookup (template_path dir rel) files'
        ≡ (if b then v else lookup (template_path dir rel) files)
      → read_template embedded dir (on_disk files') rel ≡ (
          if b
          then elim v [ some t ↦ some t | none ↦ read_embedded embedded rel ]
          else read_template embedded dir (on_disk files) rel)
  unfolding read_template resolve_override
  read_template_if files' b v unset h = elim (Bool-cases (is_empty dir)) [
    | inl e ↦ rw (unset e, read_template, resolve_override, e) refl
    | inr e ↦ elim (Bool-cases b) [
      | inl set ↦ rw (set, read_template, resolve_override, e, h, set) refl
      | inr kept ↦ rw (kept, read_template, resolve_override, e, h, kept) refl
    ]
  ]

  -- The same behind the tests of a form for the template `a`.
  gated-read_template :
      (a url : Text) (r : FileMap × Bool) (v : Option Text)
      → is_listed rel list_editable_templates ≡ true
      → (valid : Bool) → is_template_name a ≡ valid
      → (unset : Bool) → is_empty dir ≡ unset
      → (is_empty dir ≡ false
          → lookup (template_path dir rel) r.0 ≡ (
              if r.1 && text_eq (template_path dir a) (template_path dir rel)
              then v
              else lookup (template_path dir rel) files))
      → let out : FileMap × Answer =
          if valid
          then (if unset then (files, refused 400) else answered (redirected url) r)
          else (files, refused 400) in
        read_template embedded dir (on_disk out.0) rel ≡ (
          if is_redirected out.1 && text_eq a rel
          then elim v [ some t ↦ some t | none ↦ read_embedded embedded rel ]
          else read_template embedded dir (on_disk files) rel)
  unfolding answered is_redirected
  gated-read_template a url r v listed false e unset f h = refl
  gated-read_template a url r v listed true e true f h = refl
  gated-read_template a url (after, false) v listed true e false f h =
      read_template_if after false v (λ unset. refl) (h f)
  gated-read_template a url (after, true) v listed true e false f h =
      read_template_if after (text_eq a rel) v (λ unset. absurd (ground arith))
        (rw (text_eq-template_path dir f a (template_name_listed a e) rel listed) at (h f))

module _ (embedded : Text → Option Text) (dir : Text) (fault : Fault) (raw rel : Text)
    (files : FileMap) (listed : is_listed rel list_editable_templates ≡ true) where
  pub read_template-template_save :
      (content : Text)
      → read_template embedded dir (on_disk (template_save dir fault raw content files).0) rel ≡ (
          if is_redirected (template_save dir fault raw content files).1
            && text_eq (normalize_template_name raw) rel
          then some content
          else read_template embedded dir (on_disk files) rel)
  unfolding template_save
  read_template-template_save content =
      let a = normalize_template_name raw in
      gated-read_template embedded dir rel files a
        (bytes "/admin/templates/" ++ (raw ++ bytes "?flash=saved&kind=ok"))
        (replace_file fault (template_path dir a) content files) (some content) listed
        (is_template_name a) refl (is_empty dir) refl
        (λ set.
          lookup-replace_file fault (template_path dir a) content (template_path dir rel) files
            (template_path-IsLasting dir set rel listed))

  pub read_template-template_reset :
      read_template embedded dir (on_disk (template_reset dir fault raw files).0) rel ≡ (
        if is_redirected (template_reset dir fault raw files).1
          && text_eq (normalize_template_name raw) rel
        then read_embedded embedded rel
        else read_template embedded dir (on_disk files) rel)
  unfolding template_reset
  read_template-template_reset =
      let a = normalize_template_name raw in
      gated-read_template embedded dir rel files a
        (bytes "/admin/templates/" ++ (a ++ bytes "?flash=reset&kind=ok"))
        (remove_file fault (template_path dir a) files) none listed (is_template_name a) refl
        (is_empty dir) refl
        (λ set. lookup-remove_file fault (template_path dir a) (template_path dir rel) files)
