-- ===== src/Autoexec/Templates.antt =====
-- The boot targets that have a template in internal/boot/targets.go.
use pxe_beacon.Base.{
  ◌≡◌, refl, inl, inr, arith, Bool, true, false, ◌||◌, Option, ◌++◌, Bool-cases, Option-cases,
  is_empty, is_some, all_of, Text, bytes, text_eq, text_eq_iff,
}
use pxe_beacon.Fleet.{is_text, valid_boot_target}
use pxe_beacon.Assets.{
  embedded_names, resolve_override, read_embedded, read_template, read_autoexec,
}
use pxe_beacon.Autoexec.{is_built_in}

-- The boot targets of the RHEL family.
unfoldable pub is_rhel : Text → Bool
is_rhel boot = is_text boot "rocky-9" || is_text boot "alma-9"

module _ (embedded : Text → Option Text) (dir : Text) (read : Text → Option Text) where
  read_template_some :
      (rel : Text)
      → is_some (embedded (bytes "scripts/" ++ rel)) ≡ true
      → is_some (read_template embedded dir read rel) ≡ true
  unfolding read_template read_embedded
  read_template_some rel h = elim (Option-cases (resolve_override dir read rel)) [
    | inl e ↦ rw (read_template, e) h
    | inr (b, e) ↦ rw (read_template, e) refl
  ]

  read_autoexec_at :
      (target name : Text)
      → text_eq target name ≡ true
      → is_empty name ≡ false
      → is_some (embedded (bytes "scripts/" ++ (bytes "autoexec/" ++ (name ++ bytes ".ipxe"))))
        ≡ true
      → is_some (read_autoexec embedded dir read target) ≡ true
  unfolding read_autoexec
  read_autoexec_at target name same nonempty h =
      rw ((text_eq_iff target name).0 same, read_autoexec, nonempty)
        (read_template_some (bytes "autoexec/" ++ (name ++ bytes ".ipxe")) h)

  -- Each target that is built in has a template.
  pub read_autoexec_some :
      (target : Text)
      → is_built_in target ≡ true
      → all_of (λ name. is_some (embedded name)) embedded_names ≡ true
      → is_some (read_autoexec embedded dir read target) ≡ true
  unfolding is_built_in all_of
  read_autoexec_some target built h = elim (Bool-cases (is_text target "menu")) [
    | inl e ↦ read_autoexec_at target (bytes "menu") e refl (ground arith)
    | inr n1 ↦ elim (Bool-cases (is_text target "ubuntu-22.04")) [
      | inl e ↦ read_autoexec_at target (bytes "ubuntu-22.04") e refl (ground arith)
      | inr n2 ↦ elim (Bool-cases (is_text target "ubuntu-24.04")) [
        | inl e ↦ read_autoexec_at target (bytes "ubuntu-24.04") e refl (ground arith)
        | inr n3 ↦ elim (Bool-cases (is_text target "debian-12")) [
          | inl e ↦ read_autoexec_at target (bytes "debian-12") e refl (ground arith)
          | inr n4 ↦ read_autoexec_at target (bytes "debian-13") (ground arith) refl (ground arith)
        ]
      ]
    ]
  ]

pub rhel_apart :
    (boot : Text)
    → is_rhel boot ≡ true
    → (is_text boot "custom" ≡ false) × (is_built_in boot ≡ false)
unfolding is_rhel is_built_in text_eq
rhel_apart boot h = elim (Bool-cases (is_text boot "rocky-9")) [
  | inl e ↦ rw ((text_eq_iff boot (bytes "rocky-9")).0 e) (refl, refl)
  | inr n ↦ rw ((text_eq_iff boot (bytes "alma-9")).0 (ground arith)) (refl, refl)
]

pub recognised_built :
    (boot : Text)
    → valid_boot_target boot ≡ true
    → is_rhel boot ≡ false
    → is_text boot "custom" ≡ false
    → is_built_in boot ≡ true
unfolding valid_boot_target is_rhel is_built_in
recognised_built boot h rhel custom = ground arith
