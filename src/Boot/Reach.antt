-- ===== src/Boot/Reach.antt =====
-- What stands behind a machine's label in the dispatch script of internal/boot/dispatch.go.
use pxe_beacon.Base.{
  ◌≡◌, refl, sym, ap, subst, ◌∙◌, inl, inr, arith, Bool, true, false, not, ◌&&◌, ◌||◌, some, List,
  [], ◌∷◌, ◌++◌, append_assoc, Bool-cases, Text, text_eq, text_eq_iff, text_eq_refl, Map, lookup,
  sort_by,
}
use pxe_beacon.Fleet.{Profile, Fleet}
use pxe_beacon.Fleet.Loaded.{IsValid}
use pxe_beacon.Fleet.Saving.{as_machine}
use pxe_beacon.Boot.Script.{
  Line, say, print, label, jump, on_match, item, labels, after_label, is_plain, is_readable,
}
use pxe_beacon.Boot.Labels.{label_of}
use pxe_beacon.Boot.Arms.{DispatchContext}
use pxe_beacon.Boot.Block.{block_body, machine_block}
use pxe_beacon.Boot.Dispatch.{
  head_lines, netmask_lines, table_head, match_table, table_end, is_armed, machine_blocks,
  tail_lines, by_mac, sorted_machines, dispatch_of, dispatch_lines,
}
use pxe_beacon.Boot.Readable.{
  IsPlainContext, IsPlainFleet, sort_by-IsPlainFleet, is_readable-before, dispatch_of-IsReadable,
}
use pxe_beacon.Boot.Sorted.{lookup-sort_by}

-- No text stands twice in the list.
unfoldable pub has_text : Text → List Text → Bool
has_text x [] = false
has_text x (y ∷ ys) = text_eq y x || has_text x ys

unfoldable pub all_distinct : List Text → Bool
unfolding has_text
all_distinct [] = true
all_distinct (x ∷ xs) = not (has_text x xs) && all_distinct xs

has_text-labels :
    (own : Text) (xs ys : List Line) → has_text own (labels (xs ++ (label own ∷ ys))) ≡ true
unfolding labels has_text
has_text-labels own [] ys = rw (text_eq_refl own)
has_text-labels own (say t ∷ xs) ys = has_text-labels own xs ys
has_text-labels own (print b t a ∷ xs) ys = has_text-labels own xs ys
has_text-labels own (jump b l ∷ xs) ys = has_text-labels own xs ys
has_text-labels own (on_match k v l ∷ xs) ys = has_text-labels own xs ys
has_text-labels own (item b l a ∷ xs) ys = has_text-labels own xs ys
has_text-labels own (label l ∷ xs) ys = ground (arith, has_text-labels own xs ys)

-- The first label of a script that has it once.
after_label_distinct :
    (own : Text) (xs ys : List Line)
    → is_readable xs ≡ true
    → all_distinct (labels (xs ++ (label own ∷ ys))) ≡ true
    → after_label own (xs ++ (label own ∷ ys)) ≡ some ys
unfolding after_label is_readable labels all_distinct
after_label_distinct own [] ys r d = rw (text_eq_refl own)
after_label_distinct own (say t ∷ xs) ys r d = after_label_distinct own xs ys r d
after_label_distinct own (print b t a ∷ xs) ys r d = elim (Bool-cases (is_plain t)) [
  | inl plain ↦ rw plain (after_label_distinct own xs ys (ground arith) d)
  | inr other ↦ absurd (ground arith)
]
after_label_distinct own (jump b l ∷ xs) ys r d = after_label_distinct own xs ys r d
after_label_distinct own (on_match k v l ∷ xs) ys r d = after_label_distinct own xs ys r d
after_label_distinct own (item b l a ∷ xs) ys r d = after_label_distinct own xs ys r d
after_label_distinct own (label l ∷ xs) ys r d = elim (Bool-cases (text_eq l own)) [
  | inl same ↦
      let twice =
        ap (λ t. has_text t (labels (xs ++ (label own ∷ ys)))) ((text_eq_iff l own).0 same)
        ∙ has_text-labels own xs ys in
      absurd (ground arith)
  | inr other ↦ rw other (after_label_distinct own xs ys r (ground arith))
]

module _ (ctx : DispatchContext) (quote : Text → Text) where
  -- What the machine at `c` with the profile `p` runs.
  abbrev pub block_of : Text → Profile → List Line
  block_of c p = block_body ctx (as_machine (c, p)) (is_armed ctx c) quote (label_of c p.name)

  -- A script in two parts around the label of a machine and what stands behind it.
  abbrev SplitAt : List Line → Text → Profile → Type 0
  SplitAt ls c p =
      (before : List Line) × (after : List Line) × (ls
        ≡ before ++ (label (label_of c p.name) ∷ (block_of c p ++ after)))

  SplitAt-prepend :
      (xs ls : List Line) (c : Text) (p : Profile) → SplitAt ls c p → SplitAt (xs ++ ls) c p
  SplitAt-prepend xs ls c p (before, after, e) =
      (xs ++ before, after, ap (λ (r : List Line). xs ++ r) e ∙ sym (append_assoc xs before _))

  SplitAt-append :
      (ls ys : List Line) (c : Text) (p : Profile) → SplitAt ls c p → SplitAt (ls ++ ys) c p
  SplitAt-append ls ys c p (before, after, e) =
      let own = label (label_of c p.name) in
      (
        before,
        after ++ ys,
        ap (λ (r : List Line). r ++ ys) e
            ∙ append_assoc before (own ∷ (block_of c p ++ after)) ys
            ∙ ap (λ (r : List Line). before ++ (own ∷ r)) (append_assoc (block_of c p) after ys),
      )

  machine_blocks-SplitAt :
      (ms : Map Profile) (c : Text) (p : Profile)
      → lookup c ms ≡ some p
      → SplitAt (machine_blocks ctx quote ms) c p
  unfolding machine_blocks machine_block lookup
  machine_blocks-SplitAt [] c p h = absurd (ground arith)
  machine_blocks-SplitAt ((mac, q) ∷ ms) c p h = elim (Bool-cases (text_eq mac c)) [
    | inl same ↦
        let found : q ≡ p = ground arith in
        subst (λ d. SplitAt (machine_blocks ctx quote ((mac, q) ∷ ms)) d p)
          ((text_eq_iff mac c).0 same)
          (subst (λ r. SplitAt (machine_blocks ctx quote ((mac, q) ∷ ms)) mac r) found
            (say [] ∷ [], machine_blocks ctx quote ms, refl))
    | inr other ↦
        let first = machine_block ctx (as_machine (mac, q)) (is_armed ctx mac) quote in
        SplitAt-prepend first _ c p (machine_blocks-SplitAt ms c p (ground arith))
  ]

  dispatch_of-SplitAt :
      (ms : Map Profile) (c : Text) (p : Profile)
      → lookup c ms ≡ some p
      → SplitAt (dispatch_of ctx quote ms) c p
  unfolding dispatch_of
  dispatch_of-SplitAt ms c p h = SplitAt-prepend head_lines _ c p (
      SplitAt-prepend (netmask_lines ctx) _ c p (
        SplitAt-prepend (table_head ctx) _ c p (
          SplitAt-prepend (match_table ms) _ c p (
            SplitAt-prepend table_end _ c p (
              SplitAt-append (machine_blocks ctx quote ms) (tail_lines ctx) c p
                (machine_blocks-SplitAt ms c p h))))))

-- The address that the server is advertised at, the netmask for the clients and the addresses and
-- names of the machines are plain: iPXE reads them as words, since they have no control character,
-- none of & | $ # and backslash, and no word that starts with a hyphen; and the boot targets are
-- known ones. Then, where the labels of the dispatch script of a valid fleet are pairwise distinct,
-- what stands behind the label of a machine of the fleet is the menu and the boot of this machine.
pub dispatch_lines-reaches :
    (ctx : DispatchContext) (quote : Text → Text) (f : Fleet) (c : Text) (p : Profile)
    → IsValid f
    → IsPlainContext ctx
    → IsPlainFleet f.machines
    → lookup c f.machines ≡ some p
    → all_distinct (labels (dispatch_lines ctx quote (some f))) ≡ true
    → (after : List Line) × (after_label (label_of c p.name) (dispatch_lines ctx quote (some f))
        ≡ some (block_of ctx quote c p ++ after))
unfolding dispatch_lines sorted_machines
dispatch_lines-reaches ctx quote f c p valid plain names here distinct =
    let ms = sort_by by_mac f.machines in
    let (before, after, e) =
      dispatch_of-SplitAt ctx quote ms c p
        (lookup-sort_by by_mac c f.machines valid.unique ∙ here) in
    let own = label_of c p.name in
    let split = subst (λ ls. all_distinct (labels ls) ≡ true) e distinct in
    let readable = is_readable-before before _ (
      subst (λ ls. is_readable ls ≡ true) e
        (dispatch_of-IsReadable ctx plain quote ms
          (sort_by-IsPlainFleet by_mac f.machines names))) in
    (after, ap (after_label own) e ∙ after_label_distinct own before _ readable split)
