-- ===== src/FilePaths/Below.antt =====
-- Clean on a path below a directory: what follows the directory is kept.
use pxe_beacon.Base.{
  ℕ, ◌==◌, ==_iff, ◌≡◌, refl, sym, ap, ◌∙◌, inl, inr, Bool, true, false, List, [], ◌∷◌, ◌++◌,
  append_assoc, append-nil, Bool-cases, All, is_empty, Text, bytes, text_eq, has_prefix, split_on,
  split_on-append, split_on_cons, push_first, join_with, if◌then◌else◌, not, ◌||◌, all_of, arith,
}
use mathlib.Core.List.{reverse, reverse-cons}
use pxe_beacon.FilePaths.{is_abs, clean_elements, elements, render, clean}

-- An element that Clean keeps.
abbrev pub IsPlain : Text → Type 0
IsPlain e =
    (is_empty e ≡ false) × (text_eq e (bytes ".") ≡ false) × (text_eq e (bytes "..") ≡ false)

-- The same as a test.
unfoldable pub is_plain : Text → Bool
is_plain e = not (is_empty e || text_eq e (bytes ".") || text_eq e (bytes ".."))

pub All-IsPlain : (es : List Text) → all_of is_plain es ≡ true → All IsPlain es
unfolding all_of is_plain
All-IsPlain [] h = tt
All-IsPlain (e ∷ es) h = ((ground arith, ground arith, ground arith), All-IsPlain es (ground arith))

clean_elements-IsPlain :
    (rooted : Bool) (es stack : List Text)
    → All IsPlain es
    → clean_elements rooted stack es ≡ reverse stack ++ es
unfolding clean_elements
clean_elements-IsPlain rooted [] stack h = sym (append-nil (reverse stack))
clean_elements-IsPlain rooted (e ∷ es) stack ((nonempty, no_dot, no_dot_dot), h) =
    rw (clean_elements, nonempty, no_dot, no_dot_dot)
      (clean_elements-IsPlain rooted es (e ∷ stack) h
        ∙ ap (λ (r : List Text). r ++ es) (reverse-cons e stack)
        ∙ append_assoc (reverse stack) (e ∷ []) es)

pub clean_elements-append :
    (rooted : Bool) (es stack fs : List Text)
    → All IsPlain fs
    → clean_elements rooted stack (es ++ fs) ≡ clean_elements rooted stack es ++ fs
unfolding clean_elements
clean_elements-append rooted [] stack fs h = clean_elements-IsPlain rooted fs stack h
clean_elements-append rooted (e ∷ es) stack fs h = clean_elements-append rooted es _ fs h

-- Splitting loses nothing.
join_with-push_first :
    (sep b : ℕ) (w : Text) (ws : List Text)
    → join_with sep (push_first b (w ∷ ws)) ≡ b ∷ join_with sep (w ∷ ws)
unfolding join_with push_first
join_with-push_first sep b w [] = refl
join_with-push_first sep b w (v ∷ ws) = refl

join_with-cons :
    (sep : ℕ) (s : Text)
    → join_with sep ([] ∷ split_on sep s) ≡ sep ∷ join_with sep (split_on sep s)
unfolding join_with
join_with-cons sep s = let (w, ws, e) = split_on_cons sep s in rw e refl

pub join_with-split_on : (sep : ℕ) (s : Text) → join_with sep (split_on sep s) ≡ s
unfolding join_with split_on
join_with-split_on sep [] = refl
join_with-split_on sep (b ∷ s) = elim (Bool-cases (b == sep)) [
  | inl e ↦ rw e (
      join_with-cons sep s
      ∙ ap (◌∷◌ sep) (join_with-split_on sep s)
      ∙ ap (λ (k : ℕ). k ∷ s) (sym ((==_iff b sep).0 e)))
  | inr e ↦
      let (w, ws, parts) = split_on_cons sep s in
      rw (e, parts)
        (join_with-push_first sep b w ws
          ∙ ap (◌∷◌ b) (ap (join_with sep) (sym parts) ∙ join_with-split_on sep s))
]

-- The elements, each with a slash behind it.
front : List Text → Text
front [] = []
front (e ∷ es) = e ++ (b'/' ∷ front es)

join_with-front :
    (es : List Text) (f : Text) (fs : List Text)
    → join_with b'/' (es ++ (f ∷ fs)) ≡ front es ++ join_with b'/' (f ∷ fs)
unfolding join_with front
join_with-front [] f fs = refl
join_with-front (e ∷ []) f fs = sym (append_assoc e (b'/' ∷ []) (join_with b'/' (f ∷ fs)))
join_with-front (e ∷ d ∷ es) f fs =
    ap (λ (r : Text). e ++ (b'/' ∷ r)) (join_with-front (d ∷ es) f fs)
    ∙ sym (append_assoc e (b'/' ∷ front (d ∷ es)) (join_with b'/' (f ∷ fs)))

render-front :
    (rooted : Bool) (es : List Text) (f : Text) (fs : List Text)
    → render rooted (es ++ (f ∷ fs))
      ≡ (if rooted then b'/' ∷ front es else front es) ++ join_with b'/' (f ∷ fs)
unfolding render
render-front true es f fs = ap (◌∷◌ b'/') (join_with-front es f fs)
render-front false [] f fs = join_with-front [] f fs
render-front false (e ∷ es) f fs = join_with-front (e ∷ es) f fs

-- What Clean makes of a directory, in front of what lies in it.
pub inside : Text → Text
inside d =
    let es = clean_elements (is_abs d) [] (split_on b'/' d) in
    if is_abs d then b'/' ∷ front es else front es

pub clean-inside :
    (d rel : Text)
    → is_empty d ≡ false
    → All IsPlain (split_on b'/' rel)
    → clean (d ++ (b'/' ∷ rel)) ≡ inside d ++ rel
unfolding clean elements is_abs has_prefix inside
clean-inside [] rel h plain = cc
clean-inside (a ∷ d) rel h plain =
    let rooted = is_abs (a ∷ d) in
    let (w, ws, e) = split_on_cons b'/' rel in
    ap (λ (r : List Text). render rooted (clean_elements rooted [] r))
      (split_on-append b'/' (a ∷ d) rel)
    ∙ ap (render rooted) (clean_elements-append rooted (split_on b'/' (a ∷ d)) [] _ plain)
    ∙ (rw e (render-front rooted (clean_elements rooted [] (split_on b'/' (a ∷ d))) w ws))
    ∙ ap (λ (r : Text). inside (a ∷ d) ++ r)
        (ap (join_with b'/') (sym e) ∙ join_with-split_on b'/' rel)
