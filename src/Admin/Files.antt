-- ===== src/Admin/Files.antt =====
-- How a form writes its file: into a file beside it that is then renamed, and how it removes one.
use pxe_beacon.Base.{
  ℕ, ◌==◌, ==_iff, ◌≡◌, refl, sym, ap, ◌∙◌, inl, inr, arith, Bool, true, false, ◌&&◌, Option, none,
  some, [], ◌∷◌, ◌++◌, if◌then◌else◌, Bool-cases, Text, bytes, text_eq, text_eq_iff, Map, lookup,
  insert, delete, lookup-insert, lookup-delete,
}

-- The files of the disk by their paths.
abbrev pub FileMap : Type 0
FileMap = Map Text

-- The step at which the system fails, if it does. A write that fails may have left a part of the
-- text.
pub data Fault : Type 0 where
  sound mkdir_fails rename_fails remove_fails : Fault
  write_fails : Option Text → Fault

abbrev pub temporary : Text → Text
temporary path = path ++ bytes ".tmp"

-- MkdirAll, WriteFile and Rename: the files that are left, and whether all has worked.
unfoldable pub replace_file : Fault → Text → Text → FileMap → FileMap × Bool
replace_file mkdir_fails path content files = (files, false)
replace_file (write_fails none) path content files = (files, false)
replace_file (write_fails (some part)) path content files =
    (insert (temporary path) part files, false)
replace_file rename_fails path content files = (insert (temporary path) content files, false)
replace_file sound path content files = (insert path content (delete (temporary path) files), true)
replace_file remove_fails path content files =
    (insert path content (delete (temporary path) files), true)

-- Remove, where a file that is not there is no error.
unfoldable pub remove_file : Fault → Text → FileMap → FileMap × Bool
remove_file remove_fails path files = (files, false)
remove_file _ path files = (delete path files, true)

unfoldable pub last_byte : Text → ℕ
last_byte [] = 0
last_byte (b ∷ []) = b
last_byte (b ∷ c ∷ s) = last_byte (c ∷ s)

pub last_byte-append : (x : Text) (b : ℕ) (y : Text) → last_byte (x ++ (b ∷ y)) ≡ last_byte (b ∷ y)
unfolding last_byte
last_byte-append [] b y = refl
last_byte-append (a ∷ []) b y = refl
last_byte-append (a ∷ c ∷ x) b y = last_byte-append (c ∷ x) b y

-- A path that does not end like a temporary file.
abbrev pub IsLasting : Text → Type 0
IsLasting p = (last_byte p == b'p') ≡ false

temporary-IsLasting : (path p : Text) → IsLasting p → text_eq (temporary path) p ≡ false
temporary-IsLasting path p h = elim (Bool-cases (text_eq (temporary path) p)) [
  | inr other ↦ other
  | inl same ↦
      let ends : last_byte p ≡ b'p' =
        ap last_byte (sym ((text_eq_iff (temporary path) p).0 same))
        ∙ last_byte-append path b'.' (bytes "tmp")
        ∙ unfold last_byte in refl in
      absurd (ground (arith, (==_iff (last_byte p) b'p').1 ends))
]

lookup-replaced :
    (path content p : Text) (files : FileMap)
    → text_eq (temporary path) p ≡ false
    → lookup p (insert path content (delete (temporary path) files))
      ≡ (if text_eq path p then some content else lookup p files)
lookup-replaced path content p files h = rw (lookup-insert, lookup-delete, h) refl

-- What is read afterwards at a path that is not a temporary file.
pub lookup-replace_file :
    (fault : Fault) (path content p : Text) (files : FileMap)
    → IsLasting p
    → lookup p (replace_file fault path content files).0 ≡ (
        if (replace_file fault path content files).1 && text_eq path p
        then some content
        else lookup p files)
unfolding replace_file
lookup-replace_file mkdir_fails path content p files h = refl
lookup-replace_file (write_fails none) path content p files h = refl
lookup-replace_file (write_fails (some part)) path content p files h =
    rw (lookup-insert, temporary-IsLasting path p h) refl
lookup-replace_file rename_fails path content p files h =
    rw (lookup-insert, temporary-IsLasting path p h) refl
lookup-replace_file sound path content p files h =
    lookup-replaced path content p files (temporary-IsLasting path p h)
lookup-replace_file remove_fails path content p files h =
    lookup-replaced path content p files (temporary-IsLasting path p h)

pub lookup-remove_file :
    (fault : Fault) (path p : Text) (files : FileMap)
    → lookup p (remove_file fault path files).0
      ≡ (if (remove_file fault path files).1 && text_eq path p then none else lookup p files)
unfolding remove_file
lookup-remove_file remove_fails path p files = refl
lookup-remove_file sound path p files = lookup-delete path p files
lookup-remove_file mkdir_fails path p files = lookup-delete path p files
lookup-remove_file rename_fails path p files = lookup-delete path p files
lookup-remove_file (write_fails part) path p files = lookup-delete path p files
