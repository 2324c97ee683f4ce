-- ===== src/Cache/Inside.antt =====
-- internal/cache/cache.go: where the path of an accepted name lies.
use pxe_beacon.Base.{
  ◌≡◌, refl, sym, ap, ◌∙◌, inl, inr, arith, true, ◌&&◌, some, List, [], ◌∷◌, ◌++◌, Bool-cases, All,
  all_of, Text, text_eq, has_prefix, split_on, split_on-append, push_first,
}
use mathlib.Core.Option.{some-injective}
use pxe_beacon.FilePaths.{is_abs, clean_elements, elements, render, clean}
use pxe_beacon.FilePaths.Below.{IsPlain, clean_elements-append}
use pxe_beacon.Cache.{is_name_byte, safe_target_name, safe_asset_path, join_below, asset_path}

pub safe-IsPlain : (e : Text) → safe_target_name e ≡ true → IsPlain e
unfolding safe_target_name has_prefix text_eq
safe-IsPlain [] h = absurd (ground arith)
safe-IsPlain (b ∷ e) h = ground arith

names-IsPlain : (es : List Text) → all_of safe_target_name es ≡ true → All IsPlain es
unfolding all_of
names-IsPlain [] h = tt
names-IsPlain (e ∷ es) h = (safe-IsPlain e (ground arith), names-IsPlain es (ground arith))

-- A name has no slash.
pub split_on-name : (s : Text) → all_of is_name_byte s ≡ true → split_on b'/' s ≡ s ∷ []
unfolding split_on all_of is_name_byte push_first
split_on-name [] h = refl
split_on-name (c ∷ s) h = ground (arith, split_on-name s)

pub split_on-target : (s : Text) → safe_target_name s ≡ true → split_on b'/' s ≡ s ∷ []
unfolding safe_target_name
split_on-target s h = split_on-name s (ground arith)

-- The path below a root, where the target and the elements of the file name are kept as they are.
join_below-elements :
    (root target file : Text)
    → is_abs root ≡ true
    → safe_target_name target ≡ true
    → all_of safe_target_name (split_on b'/' file) ≡ true
    → join_below root target file ≡ render true (elements root ++ (target ∷ split_on b'/' file))
unfolding is_abs has_prefix join_below render clean elements
join_below-elements [] target file absolute t f = absurd (ground arith)
join_below-elements (a ∷ root) target file absolute t f =
    let tail = target ++ (b'/' ∷ file) in
    let plain : All IsPlain (target ∷ split_on b'/' file) =
      (safe-IsPlain target t, names-IsPlain (split_on b'/' file) f) in
    let parts : split_on b'/' ((a ∷ root) ++ (b'/' ∷ tail))
        ≡ split_on b'/' (a ∷ root) ++ (target ∷ split_on b'/' file) =
      split_on-append b'/' (a ∷ root) tail
      ∙ ap (λ (r : List Text). split_on b'/' (a ∷ root) ++ r)
          (split_on-append b'/' target file
            ∙ ap (λ (r : List Text). r ++ split_on b'/' file) (split_on-target target t)) in
    let whole =
      ap (clean_elements true []) parts
      ∙ clean_elements-append true (split_on b'/' (a ∷ root)) [] _ plain in
    rw (join_below, clean, elements, is_abs, absolute) (ap (render true) whole)

-- Where the root is an absolute path, the path of an asset that is accepted has the elements of the
-- root, then the target, then the elements of the file name, and nothing else; so it lies below the
-- directory of the target.
pub asset_path-elements :
    (root target file p : Text)
    → is_abs root ≡ true
    → asset_path root target file ≡ some p
    → (p ≡ render true (elements root ++ (target ∷ split_on b'/' file)))
      × (all_of safe_target_name (target ∷ split_on b'/' file) ≡ true)
unfolding asset_path safe_asset_path all_of
asset_path-elements root target file p absolute h =
    elim (Bool-cases (safe_target_name target && safe_asset_path file)) [
      | inl good ↦
          let t : safe_target_name target ≡ true = ground arith in
          let f : all_of safe_target_name (split_on b'/' file) ≡ true = ground arith in
          (
            some-injective _ _ (sym (rw good at h))
                ∙ join_below-elements root target file absolute t f,
            ground arith,
          )
      | inr bad ↦ absurd (ground arith)
    ]
