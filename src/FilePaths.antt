-- ===== src/FilePaths.antt =====
-- The parts of Go's path/filepath that internal/fleet and internal/cache call, on slash-separated
-- paths: IsAbs, Clean, Join and Rel.
pub mod Below
pub mod Tests
use pxe_beacon.Base.{
  ℕ, Bool, true, false, not, ◌||◌, Option, none, some, List, [], ◌∷◌, ◌++◌, if◌then◌else◌, is_empty,
  Text, bytes, text_eq, has_prefix, split_on, push_first, join_with,
}
use mathlib.Core.List.{reverse}
use mathlib.Core.Option

-- `filepath.IsAbs`
unfoldable pub is_abs : Text → Bool
unfolding has_prefix
is_abs p = has_prefix p (b'/' ∷ [])

abbrev dot : Text
dot = b'.' ∷ []

abbrev dot_dot : Text
dot_dot = b'.' ∷ b'.' ∷ []

-- ".." on a stack of path elements, the last element first.
unfoldable pub go_up : Bool → List Text → List Text
go_up rooted [] = if rooted then [] else dot_dot ∷ []
go_up rooted (top ∷ stack) = if text_eq top dot_dot then dot_dot ∷ top ∷ stack else stack

-- The loop of `filepath.Clean` over the elements of the path.
unfoldable pub clean_elements : Bool → List Text → List Text → List Text
clean_elements rooted stack [] = reverse stack
clean_elements rooted stack (e ∷ es) =
    clean_elements rooted
      (if is_empty e || text_eq e dot
        then stack
        else if text_eq e dot_dot
        then go_up rooted stack
        else e ∷ stack)
      es

-- The elements of the cleaned path.
unfoldable pub elements : Text → List Text
unfolding clean_elements go_up split_on
elements p = clean_elements (is_abs p) [] (split_on b'/' p)

unfoldable pub render : Bool → List Text → Text
unfolding join_with
render true es = b'/' ∷ join_with b'/' es
render false [] = dot
render false (e ∷ es) = join_with b'/' (e ∷ es)

-- `filepath.Clean`
unfoldable pub clean : Text → Text
unfolding elements render
clean p = render (is_abs p) (elements p)

-- `filepath.Join` of two paths
unfoldable pub join : Text → Text → Text
unfolding clean
join [] [] = []
join [] (b ∷ p) = clean (b ∷ p)
join (a ∷ base) [] = clean (a ∷ base)
join (a ∷ base) (b ∷ p) = clean ((a ∷ base) ++ (b'/' ∷ b ∷ p))

unfoldable pub climb : List Text → List Text → Option (List Text)
climb [] target = some target
climb (e ∷ base) target =
    let rest = climb base (dot_dot ∷ target) in if text_eq e dot_dot then none else rest

-- What is left of the elements of `base` and `target` behind their common start.
unfoldable pub rel_elements : List Text → List Text → Option (List Text)
unfolding climb
rel_elements [] target = some target
rel_elements (b ∷ base) [] = climb (b ∷ base) []
rel_elements (b ∷ base) (t ∷ target) =
    let inside = rel_elements base target in
    let outside = climb (b ∷ base) (t ∷ target) in if text_eq b t then inside else outside

unfoldable pub same_kind : Bool → Bool → Bool
same_kind true b = b
same_kind false b = not b

-- `filepath.Rel`; `none` is its error.
unfoldable pub rel : Text → Text → Option Text
unfolding rel_elements elements render same_kind
rel base target =
    if same_kind (is_abs base) (is_abs target)
    then Option.map (render false) (rel_elements (elements base) (elements target))
    else none

-- Named on an `unfolding` line, this opens all that a test computes with.
unfoldable pub path_code : Unit {0}
unfolding is_abs has_prefix split_on push_first join_with text_eq go_up clean_elements elements
    render clean join climb rel_elements same_kind rel
path_code = tt
