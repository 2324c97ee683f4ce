-- ===== src/Cache/Fetched.antt =====
-- What IsPopulated of internal/cache/cache.go says of a target after WriteManifest.
use pxe_beacon.Base.{
  ◌≡◌, ◌⊎◌, refl, ap, ◌∙◌, inl, inr, arith, Bool, true, false, Option, none, some, [], ◌∷◌, ◌++◌,
  if◌then◌else◌, Bool-cases, is_empty, all_of, Text, bytes, text_eq, text_eq_iff, text_eq_refl,
  lookup, lookup-insert, split_on, push_first, ℕ, All,
}
use pxe_beacon.FilePaths.{join}
use pxe_beacon.FilePaths.Below.{IsPlain, is_plain, All-IsPlain, inside, clean-inside}
use pxe_beacon.Cache.Inside.{safe-IsPlain, split_on-target}
use pxe_beacon.Admin.Files.{FileMap, last_byte, last_byte-append}
use pxe_beacon.Cache.{
  safe_target_name, TargetSpec, targets, is_populated_spec, is_populated, has_content, dests,
}
use pxe_beacon.Cache.Manifest.{
  Failure, sound, mkdir_fails, rename_fails, write_fails, target_dir, manifest_file,
  manifest_temporary, put_manifest, put_encoded, write_into, write_manifest, read_manifest,
}

manifest_plain : all_of is_plain (split_on b'/' (bytes ".pxe-beacon-fetched")) ≡ true
unfolding split_on push_first text_eq all_of is_plain
manifest_plain = refl

temporary_plain : all_of is_plain (split_on b'/' (bytes ".pxe-beacon-fetched.tmp")) ≡ true
unfolding split_on push_first text_eq all_of is_plain
temporary_plain = refl

join-inside :
    (d : Text) (b : ℕ) (rel : Text)
    → is_empty d ≡ false
    → all_of is_plain (split_on b'/' (b ∷ rel)) ≡ true
    → join d (b ∷ rel) ≡ inside d ++ (b ∷ rel)
unfolding join
join-inside [] b rel h plain = cc
join-inside (a ∷ d) b rel h plain = clean-inside (a ∷ d) (b ∷ rel) h (All-IsPlain _ plain)

last_byte-temporary :
    (dir : Text) → is_empty dir ≡ false → last_byte (manifest_temporary dir) ≡ b'p'
unfolding last_byte
last_byte-temporary dir h =
    ap last_byte (join-inside dir b'.' (bytes "pxe-beacon-fetched.tmp") h temporary_plain)
    ∙ last_byte-append (inside dir) b'.' (bytes "pxe-beacon-fetched.tmp")

last_byte-file : (dir : Text) → is_empty dir ≡ false → last_byte (manifest_file dir) ≡ b'd'
unfolding last_byte
last_byte-file dir h =
    ap last_byte (join-inside dir b'.' (bytes "pxe-beacon-fetched") h manifest_plain)
    ∙ last_byte-append (inside dir) b'.' (bytes "pxe-beacon-fetched")

-- The temporary file is another file than the manifest.
temporary-ne-file :
    (dir : Text)
    → is_empty dir ≡ false
    → text_eq (manifest_temporary dir) (manifest_file dir) ≡ false
temporary-ne-file dir h = elim (Bool-cases (text_eq (manifest_temporary dir) (manifest_file dir))) [
  | inr other ↦ other
  | inl same ↦
      let ends : last_byte (manifest_temporary dir) ≡ last_byte (manifest_file dir) =
        ap last_byte ((text_eq_iff (manifest_temporary dir) (manifest_file dir)).0 same) in
      absurd (omega (arith, ends, last_byte-temporary dir h, last_byte-file dir h))
]

module _ {M : Type 0} (decode : Text → Option M) where
  -- What is read in a directory after writing: the manifest that was written, if all has worked,
  -- and otherwise what was read before.
  read-put_manifest :
      (failure : Failure) (dir text : Text) (files : FileMap)
      → is_empty dir ≡ false
      → read_manifest decode (put_manifest failure dir text files).0 dir ≡ (
          if (put_manifest failure dir text files).1
          then decode text
          else read_manifest decode files dir)
  unfolding read_manifest put_manifest
  read-put_manifest sound dir text files h =
      rw (read_manifest, put_manifest, lookup-insert, text_eq_refl (manifest_file dir)) refl
  read-put_manifest mkdir_fails dir text files h =
      rw (read_manifest, put_manifest, lookup-insert, text_eq_refl (manifest_file dir)) refl
  read-put_manifest rename_fails dir text files h =
      rw (read_manifest, put_manifest, lookup-insert, temporary-ne-file dir h) refl
  read-put_manifest (write_fails none) dir text files h = refl
  read-put_manifest (write_fails (some part)) dir text files h =
      rw (read_manifest, put_manifest, lookup-insert, temporary-ne-file dir h) refl

nonempty-append : (x : Text) (b : ℕ) (y : Text) → is_empty (x ++ (b ∷ y)) ≡ false
nonempty-append [] b y = refl
nonempty-append (a ∷ x) b y = refl

-- The directory of a target has a name.
target_nonempty :
    (root target : Text)
    → is_empty root ≡ false
    → safe_target_name target ≡ true
    → is_empty (join root target) ≡ false
unfolding join safe_target_name
target_nonempty [] target h safe = cc
target_nonempty (a ∷ root) [] h safe = cc
target_nonempty (a ∷ root) (b ∷ target) h safe =
    let plain : All IsPlain (split_on b'/' (b ∷ target)) =
      rw (split_on-target (b ∷ target) safe) (safe-IsPlain (b ∷ target) safe, tt) in
    ap is_empty (clean-inside (a ∷ root) (b ∷ target) h plain)
    ∙ nonempty-append (inside (a ∷ root)) b target

safe_cases :
    (root target : Text)
    → ((if safe_target_name target then some (join root target) else none) ≡ none)
      ⊎ (((if safe_target_name target then some (join root target) else none)
            ≡ some (join root target))
          × (safe_target_name target ≡ true))
safe_cases root target = elim (Bool-cases (safe_target_name target)) [
  | inl e ↦ inr (rw e refl, e)
  | inr e ↦ inl (rw e refl)
]

target_dir-cases :
    (failure : Failure) (root target : Text)
    → (target_dir failure root target ≡ none)
      ⊎ ((target_dir failure root target ≡ some (join root target))
          × (safe_target_name target ≡ true))
unfolding target_dir
target_dir-cases mkdir_fails root target = inl refl
target_dir-cases sound root target = safe_cases root target
target_dir-cases rename_fails root target = safe_cases root target
target_dir-cases (write_fails part) root target = safe_cases root target

-- Whether a target is registered and each of its files is there and not empty.
abbrev pub is_complete : (Text → Option ℕ) → Text → Text → Bool
is_complete size_of root target = elim (lookup target targets) [
  | none ↦ false
  | some spec ↦ all_of (has_content size_of (join root target)) (dests spec)
]

populated_spec :
    {M : Type 0} (manifest_of : Text → Option M) (size_of : Text → Option ℕ) (dir : Text)
    (o : Option TargetSpec)
    → is_populated_spec manifest_of size_of dir o ≡ (
        if elim o [ none ↦ false | some spec ↦ all_of (has_content size_of dir) (dests spec) ]
        then manifest_of dir
        else none)
unfolding is_populated_spec
populated_spec manifest_of size_of dir none = refl
populated_spec manifest_of size_of dir (some spec) = ground arith

is_populated_known :
    {M : Type 0} (manifest_of : Text → Option M) (size_of : Text → Option ℕ) (root target : Text)
    → is_populated manifest_of size_of root target
      ≡ (if is_complete size_of root target then manifest_of (join root target) else none)
unfolding is_populated
is_populated_known manifest_of size_of root target =
    populated_spec manifest_of size_of (join root target) (lookup target targets)

module _ {M : Type 0} (encode : M → Option Text) (decode : Text → Option M)
    (size_of : Text → Option ℕ) where
  read-put_encoded :
      (failure : Failure) (dir : Text) (m : M) (files : FileMap) (o : Option Text)
      → ((x : M) (t : Text) → encode x ≡ some t → decode t ≡ some x)
      → is_empty dir ≡ false
      → encode m ≡ o
      → read_manifest decode (put_encoded encode failure dir o files).0 dir ≡ (
          if (put_encoded encode failure dir o files).1
          then some m
          else read_manifest decode files dir)
  unfolding put_encoded
  read-put_encoded failure dir m files none back h e = refl
  read-put_encoded failure dir m files (some text) back h e =
      read-put_manifest decode failure dir text files h
      ∙ ap
          (λ (r : Option M).
            if (put_manifest failure dir text files).1 then r else read_manifest decode files dir)
          (back m text e)

  read-write_manifest :
      (failure : Failure) (root target : Text) (m : M) (files : FileMap)
      → ((x : M) (t : Text) → encode x ≡ some t → decode t ≡ some x)
      → is_empty root ≡ false
      → read_manifest decode
          (write_manifest encode failure root target m files).0
          (join root target)
        ≡ (if (write_manifest encode failure root target m files).1
            then some m
            else read_manifest decode files (join root target))
  unfolding write_manifest write_into
  read-write_manifest failure root target m files back h =
      elim (target_dir-cases failure root target) [
        | inl none_made ↦ rw none_made refl
        | inr (made, safe) ↦ rw made (
            read-put_encoded failure (join root target) m files (encode m) back
              (target_nonempty root target h safe) refl)
      ]

  -- Where decoding gives back what was encoded: after a manifest was written, the target is
  -- populated with it, if the target is registered and its files are there and not empty. After a
  -- write that failed, at whatever step, the target is as populated as before.
  pub is_populated-write_manifest :
      (failure : Failure) (root target : Text) (m : M) (files : FileMap)
      → ((x : M) (t : Text) → encode x ≡ some t → decode t ≡ some x)
      → is_empty root ≡ false
      → is_populated
          (read_manifest decode (write_manifest encode failure root target m files).0)
          size_of
          root
          target
        ≡ (if (write_manifest encode failure root target m files).1
            then if is_complete size_of root target then some m else none
            else is_populated (read_manifest decode files) size_of root target)
  is_populated-write_manifest failure root target m files back h =
      let old = read_manifest decode files in
      let new = read_manifest decode (write_manifest encode failure root target m files).0 in
      let before = is_populated_known old size_of root target in
      let after = is_populated_known new size_of root target in
      elim (Bool-cases (is_complete size_of root target)) [
        | inl e ↦ rw (after, before, e) (read-write_manifest failure root target m files back h)
        | inr e ↦ elim (Bool-cases (write_manifest encode failure root target m files).1) [
          | inl k ↦ rw (after, before, e, k) refl
          | inr k ↦ rw (after, before, e, k) refl
        ]
      ]
