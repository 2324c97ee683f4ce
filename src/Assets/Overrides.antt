-- ===== src/Assets/Overrides.antt =====
-- Where the overrides of the templates lie.
use pxe_beacon.Base.{
  ◌≡◌, refl, ap, ◌∙◌, sym, false, true, Bool, inl, inr, Bool-cases, List, [], ◌∷◌, ◌++◌, arith,
  is_empty, all_of, Text, bytes, text_eq, text_eq_iff, split_on, push_first,
}
use pxe_beacon.FilePaths.{join}
use pxe_beacon.FilePaths.Below.{is_plain, All-IsPlain, inside, clean-inside}
use pxe_beacon.Assets.{list_editable_templates, is_listed, template_path}

-- A test of each listed name holds of a name that is listed.
pub is_listed-all_of :
    (test : Text → Bool) (s : Text) (ts : List Text)
    → all_of test ts ≡ true
    → is_listed s ts ≡ true
    → test s ≡ true
unfolding is_listed all_of
is_listed-all_of test s [] h e = cc
is_listed-all_of test s (t ∷ ts) h e = elim (Bool-cases (text_eq t s)) [
  | inl same ↦ ap test (sym ((text_eq_iff t s).0 same)) ∙ ground arith
  | inr other ↦ is_listed-all_of test s ts (ground arith) (ground arith)
]

abbrev has_plain_path : Text → Bool
has_plain_path rel = all_of is_plain (split_on b'/' (bytes "templates/" ++ rel))

editable_plain : all_of has_plain_path list_editable_templates ≡ true
unfolding split_on push_first text_eq all_of is_plain
editable_plain = refl

pub template_path-inside :
    (dir rel : Text)
    → is_empty dir ≡ false
    → is_listed rel list_editable_templates ≡ true
    → template_path dir rel ≡ inside dir ++ (bytes "templates/" ++ rel)
unfolding template_path join
template_path-inside [] rel h e = cc
template_path-inside (a ∷ dir) rel h e =
    clean-inside (a ∷ dir) (bytes "templates/" ++ rel) h
      (All-IsPlain _ (is_listed-all_of has_plain_path rel list_editable_templates editable_plain e))
