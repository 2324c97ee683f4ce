-- ===== src/Httpd/Pages.antt =====
-- internal/httpd/api.go: the bounds of a page, and the pages of a list one behind the other.
use pxe_beacon.Base.{
  ℕ, zero, suc, ◌+◌, ◌-◌, ◌*◌, ◌≤◌, ◌≡◌, refl, sym, ap, ◌∙◌, ltb, some, List, [], ◌∷◌, ◌++◌, length,
  take, drop, length-take, length-drop, arith, inl, inr, Text, Bool-cases,
}
use pxe_beacon.Httpd.Paging.{
  default_page_limit, parse_limit, parse_offset, parse_paging, slice, window,
}

-- Accepted paging parameters give a limit between 1 and 500.
parse_paging_limit :
    (limit offset : Text) (l o : ℕ)
    → parse_paging limit offset ≡ some (l, o)
    → (1 ≤ l) × (l ≤ default_page_limit)
unfolding parse_paging parse_limit parse_offset
parse_paging_limit limit offset l o h = ground arith

module _ {ℓ} {A : Type ℓ} where
  take_all : (n : ℕ) (xs : List A) → length xs ≤ n → take n xs ≡ xs
  take_all zero [] h = refl
  take_all zero (x ∷ xs) h = absurd (omega arith)
  take_all (suc n) [] h = refl
  take_all (suc n) (x ∷ xs) h = ap (λ (r : List A). x ∷ r) (take_all n xs (omega arith))

  drop_all : (n : ℕ) (xs : List A) → length xs ≤ n → drop n xs ≡ []
  drop_all zero [] h = refl
  drop_all zero (x ∷ xs) h = absurd (omega arith)
  drop_all (suc n) [] h = refl
  drop_all (suc n) (x ∷ xs) h = drop_all n xs (omega arith)

  take_none : (n : ℕ) (xs : List A) → xs ≡ [] → take n xs ≡ []
  take_none zero xs e = refl
  take_none (suc n) [] e = refl
  take_none (suc n) (x ∷ xs) e = absurd (cc)

  take-drop : (n : ℕ) (xs : List A) → take n xs ++ drop n xs ≡ xs
  take-drop zero xs = refl
  take-drop (suc n) [] = refl
  take-drop (suc n) (x ∷ xs) = ap (λ (r : List A). x ∷ r) (take-drop n xs)

  drop_nil : (n m : ℕ) (xs : List A) → xs ≡ [] → drop n xs ≡ drop m xs
  drop_nil zero zero xs e = refl
  drop_nil zero (suc m) [] e = refl
  drop_nil (suc n) zero [] e = refl
  drop_nil (suc n) (suc m) [] e = refl
  drop_nil n m (x ∷ xs) e = absurd (cc)

  drop-drop : (n m k : ℕ) (xs : List A) → k ≡ n + m → drop m (drop n xs) ≡ drop k xs
  drop-drop zero m k xs e = ap (λ j. drop j xs) (omega arith)
  drop-drop (suc n) m k [] e = drop_nil m k [] refl
  drop-drop (suc n) m zero (x ∷ xs) e = absurd (omega arith)
  drop-drop (suc n) m (suc k) (x ∷ xs) e = drop-drop n m k xs (omega arith)

  slice_end : (hi : ℕ) (xs : List A) → slice xs (length xs) hi ≡ []
  unfolding slice
  slice_end hi xs = take_none _ _ (drop_all (length xs) xs (omega arith))

  slice_over :
      (lo n : ℕ) (xs : List A) → length xs ≤ lo + n → slice xs lo (length xs) ≡ take n (drop lo xs)
  unfolding slice
  slice_over lo n xs h =
      take_all (length xs - lo) (drop lo xs) (omega (arith, length-drop lo xs))
      ∙ sym (take_all n (drop lo xs) (omega (arith, length-drop lo xs)))

  slice_within : (lo n : ℕ) (xs : List A) → slice xs lo (lo + n) ≡ take n (drop lo xs)
  unfolding slice
  slice_within lo n xs = ap (λ k. take k (drop lo xs)) (omega arith)

  -- Clamping to the bounds of the list changes nothing.
  pub window_lem :
      (limit offset : ℕ) (xs : List A) → window limit offset xs ≡ take limit (drop offset xs)
  unfolding window
  window_lem limit offset xs = elim (Bool-cases (ltb (length xs) offset)) [
    | inl past ↦
        rw (window, past)
          (slice_end _ xs ∙ sym (take_none limit _ (drop_all offset xs (ground arith))))
    | inr inside ↦ elim (Bool-cases (ltb (length xs) (offset + limit))) [
      | inl over ↦ rw (window, inside, over) (slice_over offset limit xs (ground arith))
      | inr fits ↦ rw (window, inside, fits) (slice_within offset limit xs)
    ]
  ]

  -- The pages that a client reads with the given limit, one behind the other.
  unfoldable pub pages : ℕ → ℕ → ℕ → List A → List A
  unfolding window
  pages limit offset zero xs = []
  pages limit offset (suc n) xs = window limit offset xs ++ pages limit (offset + limit) n xs

  pages-drop :
      (limit offset n : ℕ) (xs : List A)
      → length xs ≤ offset + n * limit
      → pages limit offset n xs ≡ drop offset xs
  unfolding pages
  pages-drop limit offset zero xs h = sym (drop_all offset xs (omega arith))
  pages-drop limit offset (suc n) xs h =
      ap (λ (r : List A). r ++ pages limit (offset + limit) n xs) (window_lem limit offset xs)
      ∙ ap (λ (r : List A). take limit (drop offset xs) ++ r)
          (pages-drop limit (offset + limit) n xs (grind arith)
            ∙ sym (drop-drop offset limit (offset + limit) xs refl))
      ∙ take-drop limit (drop offset xs)

-- With paging parameters that are accepted, a page has at most 500 entries and is the part of the
-- list that starts at the offset and has the limit for its length, as far as the list goes.
pub window_bounded :
    {A : Type 0} (limit offset : Text) (l o : ℕ) (xs : List A)
    → parse_paging limit offset ≡ some (l, o)
    → (length (window l o xs) ≤ default_page_limit) × (window l o xs ≡ take l (drop o xs))
window_bounded limit offset l o xs h =
    let (positive, bounded) = parse_paging_limit limit offset l o h in
    let same = window_lem l o xs in
    (omega (arith, bounded, ap length same, length-take l (drop o xs)), same)

-- A client that reads pages one behind the other, each where the last ended, with a limit that is
-- accepted, has read the whole list after as many pages as the list has entries, or sooner: after
-- `n` pages where the list is no longer than `n` times the limit.
pub pages_all :
    {A : Type 0} (limit offset : Text) (l o n : ℕ) (xs : List A)
    → parse_paging limit offset ≡ some (l, o)
    → length xs ≤ n * l
    → (pages l 0 n xs ≡ xs) × (pages l 0 (length xs) xs ≡ xs)
pages_all limit offset l o n xs h enough =
    let (positive, bounded) = parse_paging_limit limit offset l o h in
    (pages-drop l 0 n xs (omega arith), pages-drop l 0 (length xs) xs (grind (arith, positive)))
