-- ===== src/Served/Contained.antt =====
-- Which file of the disk a request for an asset is answered with.
use pxe_beacon.Base.{
  ◌≡◌, refl, ap, inl, inr, Bool, true, false, Option, none, some, ◌∷◌, ◌++◌, Bool-cases,
  Option-cases, is_empty, all_of, Text, split_on,
}
use mathlib.Core.Option.{some-injective}
use pxe_beacon.FilePaths.{is_abs, elements, render}
use pxe_beacon.Cache.{safe_target_name, asset_path}
use pxe_beacon.Cache.Inside.{asset_path-elements}
use pxe_beacon.Served.{
  failed, sent, Opened, absent, broken, opened, asset_response, asset_at, handle_asset,
}

module _ (abs : Text → Option Text) (made : Bool) (open_file : Text → Opened) where
  -- What is sent is the content of the file at a path below the directory of the target.
  abbrev pub IsBelow : Text → Text → Text → Text → Type 0
  IsBelow root target file content =
      (p : Text) × (p ≡ render true (elements root ++ (target ∷ split_on b'/' file)))
      × (all_of safe_target_name (target ∷ split_on b'/' file) ≡ true)
      × (open_file p ≡ opened content)

  response_opened :
      (is_head : Bool) (o : Opened) (content : Text)
      → (asset_response is_head o).body ≡ some content
      → o ≡ opened content
  unfolding asset_response failed sent
  response_opened is_head absent content h = cc
  response_opened is_head broken content h = cc
  response_opened true (opened t) content h = cc
  response_opened false (opened t) content h = ap opened (some-injective _ _ h)

  asset_at-IsBelow :
      (is_head : Bool) (root target file content : Text) (o : Option Text)
      → is_abs root ≡ true
      → asset_path root target file ≡ o
      → (asset_at abs made open_file is_head o).body ≡ some content
      → IsBelow root target file content
  unfolding asset_at failed
  asset_at-IsBelow is_head root target file content none absolute e h = cc
  asset_at-IsBelow is_head root target file content (some p) absolute e h =
      let (same, safe) = asset_path-elements root target file p absolute e in
      (p, same, safe, response_opened is_head (open_file p) content h)

  -- Where filepath.Abs gives absolute paths: an asset whose content is sent is the file at the path
  -- that has the elements of the data directory, then the target, then the elements of the file
  -- name of the request, and no others; each of those from the target on is a safe name.
  pub handle_asset-IsBelow :
      (data_dir target file content : Text) (is_head : Bool)
      → ((path root : Text) → abs path ≡ some root → is_abs root ≡ true)
      → (handle_asset abs made open_file data_dir target file is_head).body ≡ some content
      → (root : Text) × (abs data_dir ≡ some root) × IsBelow root target file content
  unfolding handle_asset failed
  handle_asset-IsBelow data_dir target file content is_head absolute h =
      elim (Bool-cases (is_empty data_dir)) [
        | inl e ↦ absurd (let bad : none ≡ some content = rw e at h in cc)
        | inr e ↦ elim (Option-cases (abs data_dir)) [
          | inl gone ↦ absurd (let bad : none ≡ some content = rw (e, gone) at h in cc)
          | inr (root, found) ↦ elim (Bool-cases made) [
            | inr unmade ↦ absurd (let bad : none ≡ some content = rw (e, found, unmade) at h in cc)
            | inl done ↦ (
              root,
              found,
              asset_at-IsBelow is_head root target file content (asset_path root target file)
                  (absolute data_dir root found) refl (rw (e, found, done) at h),
            )
          ]
        ]
      ]
