-- ===== src/Admin/Paths.antt =====
-- The paths of the files that the forms write differ from one another.
use pxe_beacon.Base.{
  ℕ, zero, suc, ◌==◌, ◌≡◌, refl, sym, ap, ◌∙◌, subst, inl, inr, arith, true, false, not, some, List,
  [], ◌∷◌, ◌++◌, Bool-cases, append_assoc, is_empty, all_of, All, Text, bytes, text_eq, text_eq_iff,
  split_on, split_on-append, push_first, replace_byte, has_prefix,
}
use mathlib.Core.List.{append_cancel_right}
use mathlib.Core.Option.{some-injective}
use pxe_beacon.Mac.{canonical_mac}
use pxe_beacon.Mac.Digits.{IsLowerHex}
use pxe_beacon.Mac.Canonical.{IsGroups, IsCanonical, canonical_mac-IsCanonical}
use pxe_beacon.Mac.Hyphens.{canonical_mac-hyphens}
use pxe_beacon.FilePaths.Below.{IsPlain, inside, clean-inside}
use pxe_beacon.Cache.{is_name_byte, safe_target_name}
use pxe_beacon.Cache.Inside.{safe-IsPlain, split_on-name}
use pxe_beacon.Assets.{list_editable_templates, is_listed, template_path}
use pxe_beacon.Assets.Overrides.{is_listed-all_of, template_path-inside}
use pxe_beacon.Boot.Arms.{hyphens}
use pxe_beacon.UserData.{Settings, override_path}
use pxe_beacon.Admin.Files.{last_byte, last_byte-append, IsLasting}

text_eq-append_left : (p a b : Text) → text_eq (p ++ a) (p ++ b) ≡ text_eq a b
unfolding text_eq
text_eq-append_left [] a b = refl
text_eq-append_left (c ∷ p) a b = ground (arith, text_eq-append_left p a b)

-- Two tests agree if each follows from the other.
text_eq_by : (a b c d : Text) → (a ≡ b → c ≡ d) → (c ≡ d → a ≡ b) → text_eq a b ≡ text_eq c d
text_eq_by a b c d f g = elim (Bool-cases (text_eq c d)) [
  | inl e ↦ rw e ((text_eq_iff a b).1 (g ((text_eq_iff c d).0 e)))
  | inr e ↦ elim (Bool-cases (text_eq a b)) [
    | inr n ↦ rw e n
    | inl y ↦ absurd (ground (arith, (text_eq_iff c d).1 (f ((text_eq_iff a b).0 y))))
  ]
]

text_eq-append_right : (a b z : Text) → text_eq (a ++ z) (b ++ z) ≡ text_eq a b
text_eq-append_right a b z =
    text_eq_by (a ++ z) (b ++ z) a b (append_cancel_right a b z) (ap (λ (r : Text). r ++ z))

-- An address in canonical form and the form that it has in a path.
hyphens-names : (n : ℕ) (c : Text) → IsGroups n c → all_of is_name_byte (hyphens c) ≡ true
unfolding all_of is_name_byte replace_byte
hyphens-names (suc zero) (h ∷ l ∷ []) g = ground arith
hyphens-names (suc (suc n)) (h ∷ l ∷ c ∷ t) g = ground (arith, hyphens-names (suc n) t g.3)
hyphens-names zero c g = elim g [ ]
hyphens-names (suc n) [] g = refl
hyphens-names (suc zero) (h ∷ []) g = elim g [ ]
hyphens-names (suc (suc n)) (h ∷ []) g = elim g [ ]
hyphens-names (suc zero) (h ∷ l ∷ c ∷ t) g = elim g [ ]
hyphens-names (suc (suc n)) (h ∷ l ∷ []) g = elim g [ ]

no_dot : (h : ℕ) (s : Text) → IsLowerHex h → has_prefix (hyphens (h ∷ s)) (bytes ".") ≡ false
unfolding replace_byte has_prefix
no_dot h s digit = ground arith

hyphens-safe : (c : Text) → IsCanonical c → safe_target_name (hyphens c) ≡ true
unfolding safe_target_name
hyphens-safe [] g = elim g [ ]
hyphens-safe (h ∷ []) g = elim g [ ]
hyphens-safe (h ∷ l ∷ []) g = elim g [ ]
hyphens-safe (h ∷ l ∷ c ∷ t) g =
    rw (hyphens-names 6 (h ∷ l ∷ c ∷ t) g, no_dot h (l ∷ c ∷ t) g.0) (unfold replace_byte in refl)

literal-IsPlain : IsPlain (bytes "machines") × IsPlain (bytes "cloud-init.yaml")
unfolding text_eq
literal-IsPlain = ((refl, refl, refl), (refl, refl, refl))

split_on-machine :
    (c : Text)
    → IsCanonical c
    → All IsPlain (split_on b'/' (bytes "machines/" ++ (hyphens c ++ bytes "/cloud-init.yaml")))
split_on-machine c g =
    let parts =
      split_on-append b'/' (bytes "machines") (hyphens c ++ bytes "/cloud-init.yaml")
      ∙ ap (λ (r : List Text). split_on b'/' (bytes "machines") ++ r)
          (split_on-append b'/' (hyphens c) (bytes "cloud-init.yaml")
            ∙ ap (λ (r : List Text). r ++ split_on b'/' (bytes "cloud-init.yaml"))
                (split_on-name (hyphens c) (hyphens-names 6 c g))) in
    subst (All IsPlain) (sym parts) (
      unfold split_on push_first in
      (literal-IsPlain.0, (safe-IsPlain (hyphens c) (hyphens-safe c g), (literal-IsPlain.1, tt))))

text_eq-hyphens :
    (s s' c c' : Text)
    → canonical_mac s ≡ some c
    → canonical_mac s' ≡ some c'
    → text_eq (hyphens c) (hyphens c') ≡ text_eq c c'
text_eq-hyphens s s' c c' e e' =
    text_eq_by (hyphens c) (hyphens c') c c'
      (λ same. some-injective _ _ (
        sym (canonical_mac-hyphens s c e) ∙ ap canonical_mac same ∙ canonical_mac-hyphens s' c' e'))
      (ap hyphens)

lasting_names :
    all_of (λ r. not (last_byte (bytes "templates/" ++ r) == b'p')) list_editable_templates ≡ true
unfolding all_of last_byte
lasting_names = refl

append-cons : (x : Text) (b : ℕ) (y : Text) → (a : ℕ) × (r : Text) × (x ++ (b ∷ y) ≡ a ∷ r)
append-cons [] b y = (b, y, refl)
append-cons (a ∷ x) b y = (a, x ++ (b ∷ y), refl)

module _ (dir : Text) (nonempty : is_empty dir ≡ false) where
  module _ (rel : Text) (listed : is_listed rel list_editable_templates ≡ true) where
    pub text_eq-template_path :
        (rel' : Text)
        → is_listed rel' list_editable_templates ≡ true
        → text_eq (template_path dir rel) (template_path dir rel') ≡ text_eq rel rel'
    text_eq-template_path rel' listed' =
        rw
          (
            template_path-inside dir rel nonempty listed,
            template_path-inside dir rel' nonempty listed',
          )
          (text_eq-append_left (inside dir) (bytes "templates/" ++ rel) (bytes "templates/" ++ rel')
            ∙ text_eq-append_left (bytes "templates/") rel rel')

    pub template_path-IsLasting : IsLasting (template_path dir rel)
    template_path-IsLasting =
        rw
          (
            template_path-inside dir rel nonempty listed,
            last_byte-append (inside dir) b't' (bytes "emplates/" ++ rel),
          )
          (ground (
            arith,
            is_listed-all_of (λ r. not (last_byte (bytes "templates/" ++ r) == b'p')) rel
                list_editable_templates lasting_names listed,
          ))

  module _ (s : Settings) (dir_of : s.data_dir ≡ dir) (mac c : Text)
      (named : canonical_mac mac ≡ some c) where
    pub override_path-inside :
        override_path s c
        ≡ inside dir ++ (bytes "machines/" ++ (hyphens c ++ bytes "/cloud-init.yaml"))
    unfolding override_path
    override_path-inside =
        rw (dir_of, nonempty)
          (clean-inside dir (bytes "machines/" ++ (hyphens c ++ bytes "/cloud-init.yaml")) nonempty
            (split_on-machine c (canonical_mac-IsCanonical mac c named)))

    pub override_path-cons : (b : ℕ) × (r : Text) × (override_path s c ≡ b ∷ r)
    override_path-cons =
        let (b, r, e) =
          append-cons (inside dir) b'm'
            (bytes "achines/" ++ (hyphens c ++ bytes "/cloud-init.yaml")) in
        (b, r, override_path-inside ∙ e)

    pub override_path-IsLasting : IsLasting (override_path s c)
    override_path-IsLasting = rw override_path-inside (
        unfold last_byte in
        ap (λ (k : ℕ). k == b'p')
          (ap last_byte (
              sym (
                append_assoc (inside dir) (bytes "machines/")
                  (hyphens c ++ bytes "/cloud-init.yaml")))
            ∙ ap last_byte (
                sym (
                  append_assoc (inside dir ++ bytes "machines/") (hyphens c)
                    (bytes "/cloud-init.yaml")))
            ∙ last_byte-append ((inside dir ++ bytes "machines/") ++ hyphens c) b'/'
                (bytes "cloud-init.yaml")))

    pub text_eq-template-override :
        (rel : Text)
        → is_listed rel list_editable_templates ≡ true
        → (text_eq (template_path dir rel) (override_path s c) ≡ false)
          × (text_eq (override_path s c) (template_path dir rel) ≡ false)
    text_eq-template-override rel listed =
        rw
          (
            template_path-inside dir rel nonempty listed,
            override_path-inside,
            text_eq-append_left,
            text_eq-append_left,
          )
          (unfold text_eq in (refl, refl))

  pub text_eq-override_path :
      (s : Settings)
      → s.data_dir ≡ dir
      → (mac mac' c c' : Text) → canonical_mac mac ≡ some c
      → canonical_mac mac' ≡ some c'
      → text_eq (override_path s c) (override_path s c') ≡ text_eq c c'
  text_eq-override_path s dir_of mac mac' c c' named named' =
      let tail = bytes "/cloud-init.yaml" in
      rw (override_path-inside s dir_of mac c named, override_path-inside s dir_of mac' c' named')
        (text_eq-append_left (inside dir) (bytes "machines/" ++ (hyphens c ++ tail))
            (bytes "machines/" ++ (hyphens c' ++ tail))
          ∙ text_eq-append_left (bytes "machines/") (hyphens c ++ tail) (hyphens c' ++ tail)
          ∙ text_eq-append_right (hyphens c) (hyphens c') tail
          ∙ text_eq-hyphens mac mac' c c' named named')
