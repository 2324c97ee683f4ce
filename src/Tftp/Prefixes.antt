-- ===== src/Tftp/Prefixes.antt =====
-- internal/tftp/tftp.go: the directories before a file name.
use pxe_beacon.Base.{
  ℕ, ◌==◌, ◌≡◌, refl, sym, ap, ◌∙◌, arith, Bool, true, false, Option, List, [], ◌∷◌, ◌++◌,
  if◌then◌else◌, is_empty, Text, bytes, replace_byte, split_on, split_on-append, push_first,
}
use pxe_beacon.Tftp.{IpxeKind, last_element, path_base, slashes, is_probe, serve_leaf, read_handler}

-- No byte of the text is a slash of either kind.
unfoldable pub is_leaf : Text → Bool
is_leaf [] = true
is_leaf (b ∷ s) = if b == b'/' then false else if b == b'\\' then false else is_leaf s

slashes-append : (a b : Text) (c : ℕ) → slashes (a ++ (c ∷ b)) ≡ slashes a ++ slashes (c ∷ b)
unfolding replace_byte
slashes-append [] b c = refl
slashes-append (x ∷ a) b c =
    ap (λ (r : Text). (if x == b'\\' then b'/' else x) ∷ r) (slashes-append a b c)

slashes-leaf : (s : Text) → is_leaf s ≡ true → slashes s ≡ s
unfolding is_leaf replace_byte
slashes-leaf [] h = refl
slashes-leaf (b ∷ s) h = ground (arith, slashes-leaf s)

split_on-leaf : (s : Text) → is_leaf s ≡ true → split_on b'/' s ≡ s ∷ []
unfolding is_leaf split_on push_first
split_on-leaf [] h = refl
split_on-leaf (b ∷ s) h = ground (arith, split_on-leaf s)

last_element-append :
    (leaf : Text) (es : List Text) (found : Text)
    → is_empty leaf ≡ false
    → last_element found (es ++ (leaf ∷ [])) ≡ leaf
unfolding last_element
last_element-append leaf [] found h = rw h
last_element-append leaf (e ∷ es) found h = last_element-append leaf es _ h

path_base-leaf : (leaf : Text) → is_empty leaf ≡ false → is_leaf leaf ≡ true → path_base leaf ≡ leaf
unfolding path_base last_element
path_base-leaf leaf h good =
    rw (h, split_on-leaf leaf good) (last_element-append leaf [] (bytes "/") h)

path_base-append :
    (dir leaf : Text)
    → is_empty leaf ≡ false
    → is_leaf leaf ≡ true
    → path_base (dir ++ (b'/' ∷ leaf)) ≡ leaf
unfolding path_base
path_base-append dir leaf h good =
    rw (append-nonempty dir leaf, split_on-append b'/' dir leaf, split_on-leaf leaf good)
      (last_element-append leaf (split_on b'/' dir) (bytes "/") h)
  where
    append-nonempty : (a b : Text) → is_empty (a ++ (b'/' ∷ b)) ≡ false
    append-nonempty [] b = refl
    append-nonempty (x ∷ a) b = refl

abbrev pub separator : Bool → ℕ
separator backslash = if backslash then b'\\' else b'/'

-- A file name, which is not empty and has no slash, behind directories, which are set off by
-- slashes of either kind, is answered like the file name alone, unless one of the two is a probe.
pub read_handler_prefixed :
    (autoexec : Option Text) (read_ipxe : IpxeKind → Option Text) (completes backslash : Bool)
    (dir leaf : Text)
    → is_empty leaf ≡ false
    → is_leaf leaf ≡ true
    → is_probe leaf ≡ false
    → is_probe (dir ++ (separator backslash ∷ leaf)) ≡ false
    → read_handler autoexec read_ipxe completes (dir ++ (separator backslash ∷ leaf))
      ≡ read_handler autoexec read_ipxe completes leaf
unfolding read_handler replace_byte
read_handler_prefixed autoexec read_ipxe completes backslash dir leaf h good p q =
    rw (p, q)
      (ap (serve_leaf autoexec read_ipxe completes) (
        ap path_base (
          slashes-append dir leaf (separator backslash)
          ∙ ap (λ (r : Text). slashes dir ++ r) (both backslash))
        ∙ path_base-append (slashes dir) leaf h good
        ∙ sym (ap path_base (slashes-leaf leaf good) ∙ path_base-leaf leaf h good)))
  where
    both : (backslash : Bool) → slashes (separator backslash ∷ leaf) ≡ b'/' ∷ leaf
    both true = ap (λ (r : Text). b'/' ∷ r) (slashes-leaf leaf good)
    both false = ap (λ (r : Text). b'/' ∷ r) (slashes-leaf leaf good)
