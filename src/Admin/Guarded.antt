-- ===== src/Admin/Guarded.antt =====
-- The guards before the forms: what a request needs to change anything.
use pxe_beacon.Base.{
  ℕ, ◌≡◌, refl, ◌⊎◌, inl, inr, Bool, true, false, ◌&&◌, Option, none, some, List, Bool-cases, Text,
  text_eq,
}
use pxe_beacon.UserData.{Settings}
use pxe_beacon.Admin.Files.{FileMap, Fault}
use pxe_beacon.Admin.{
  Answer, refused, Form, handle, Request, token_refusal, csrf_refusal, csrf_guard, is_local,
  loopback_only, post_form,
}

-- The form carries the token.
unfoldable pub has_token : Text → Option Text → Bool
has_token token none = false
has_token token (some sent) = text_eq sent token

token_cases :
    (token : Text) (o : Option Text)
    → ((has_token token o ≡ true) × (token_refusal token o ≡ none))
      ⊎ ((k : ℕ) × (has_token token o ≡ false) × (token_refusal token o ≡ some (refused k)))
unfolding has_token token_refusal
token_cases token none = inr (400, refl, refl)
token_cases token (some sent) = elim (Bool-cases (text_eq sent token)) [
  | inl same ↦ inl (same, rw same refl)
  | inr other ↦ inr (403, other, rw other refl)
]

refused_or_handled :
    {S : Type 0} (token : Text) (r : Request) (s : S) (next : S × Answer)
    → (csrf_guard token r s next ≡ next) ⊎ ((k : ℕ) × (csrf_guard token r s next ≡ (s, refused k)))
unfolding csrf_guard csrf_refusal
refused_or_handled token r s next = elim (Bool-cases r.is_post) [
  | inr other ↦ inl (rw other refl)
  | inl posted ↦ elim (token_cases token r.csrf) [
    | inl (carried, passes) ↦ inl (rw (posted, passes) refl)
    | inr (k, missing, stops) ↦ inr (k, rw (posted, stops) refl)
  ]
]

module _ (host_of : Text → Option Text) (parse_ip : Text → Option (List ℕ)) (s : Settings)
    (token : Text) (fault : Fault) (r : Request) (form : Form) (files : FileMap) where
  -- A form that is posted is handled if it comes from this host and carries the token; otherwise it
  -- is refused, and no file changes.
  pub post_form_cases :
      r.is_post ≡ true
      → ((is_local host_of parse_ip r.remote && has_token token r.csrf ≡ true)
          × (post_form host_of parse_ip s token fault r form files ≡ handle s fault form files))
        ⊎ ((k : ℕ) × (is_local host_of parse_ip r.remote && has_token token r.csrf ≡ false)
            × (post_form host_of parse_ip s token fault r form files ≡ (files, refused k)))
  unfolding post_form loopback_only csrf_guard csrf_refusal
  post_form_cases posted = elim (Bool-cases (is_local host_of parse_ip r.remote)) [
    | inr far ↦ inr (403, rw far refl, rw far refl)
    | inl near ↦ elim (token_cases token r.csrf) [
      | inl (carried, passes) ↦ inl (rw (near, carried) refl, rw (near, posted, passes) refl)
      | inr (k, missing, stops) ↦ inr (k, rw (near, missing) refl, rw (near, posted, stops) refl)
    ]
  ]

  pub post_outcome :
      (post_form host_of parse_ip s token fault r form files ≡ handle s fault form files)
      ⊎ ((k : ℕ) × (post_form host_of parse_ip s token fault r form files ≡ (files, refused k)))
  unfolding post_form loopback_only
  post_outcome = elim (Bool-cases (is_local host_of parse_ip r.remote)) [
    | inr far ↦ inr (403, rw far refl)
    | inl near ↦ rw near (refused_or_handled token r files (handle s fault form files))
  ]
