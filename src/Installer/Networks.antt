-- ===== src/Installer/Networks.antt =====
-- widerNetworkCIDR of internal/httpd/httpd.go, with the parts of Go's net that it calls on IPv4
-- addresses: To4, Mask, IPMask.Size and String.
use Prim.Native.Nat.{bit_and}
use pxe_beacon.Base.{
  ℕ, ◌+◌, ◌==◌, Bool, true, false, Option, none, some, List, [], ◌∷◌, ◌++◌, if◌then◌else◌, is_empty,
  all_of, take, drop, Text, text_eq, decimal,
}
use mathlib.Core.Option

-- `To4` on the sixteen bytes that `net.ParseIP` returns
unfoldable pub to_4 : List ℕ → Option (List ℕ)
unfolding text_eq
to_4 ip =
    if text_eq (take 12 ip) (0 ∷ 0 ∷ 0 ∷ 0 ∷ 0 ∷ 0 ∷ 0 ∷ 0 ∷ 0 ∷ 0 ∷ 255 ∷ 255 ∷ [])
    then some (drop 12 ip)
    else none

-- `IP.Mask`, where address and mask have four bytes
unfoldable pub mask_ip : List ℕ → List ℕ → List ℕ
mask_ip (a ∷ ip) (m ∷ mask) = bit_and a m ∷ mask_ip ip mask
mask_ip _ _ = []

-- The ones at the head of a byte, if only zeros follow.
unfoldable pub leading_ones : ℕ → Option ℕ
leading_ones b =
    if b == 0
    then some 0
    else if b == 128
    then some 1
    else if b == 192
    then some 2
    else if b == 224
    then some 3
    else if b == 240
    then some 4
    else if b == 248
    then some 5
    else if b == 252
    then some 6
    else if b == 254
    then some 7
    else if b == 255
    then some 8
    else none

-- The length of a mask in which only zeros follow the ones.
unfoldable pub mask_length : List ℕ → Option ℕ
unfolding leading_ones
mask_length [] = some 0
mask_length (b ∷ mask) =
    let rest = mask_length mask in
    if b == 255
    then Option.map (λ n. 8 + n) rest
    else if all_of (λ m. m == 0) mask
    then leading_ones b
    else none

-- `IPMask.Size`: 0 for a mask that is none.
unfoldable pub mask_size : List ℕ → ℕ
unfolding mask_length
mask_size mask = elim (mask_length mask) [ none ↦ 0 | some n ↦ n ]

-- `IP.String` on four bytes
unfoldable pub dotted : List ℕ → Text
dotted [] = []
dotted (b ∷ []) = decimal b
dotted (b ∷ c ∷ ip) = decimal b ++ (b'.' ∷ dotted (c ∷ ip))

unfoldable pub has_four : List ℕ → Bool
has_four (a ∷ b ∷ c ∷ d ∷ []) = true
has_four _ = false

unfoldable pub cidr : List ℕ → Option (List ℕ) → Text
unfolding mask_ip mask_size dotted has_four
cidr ip none = []
cidr ip (some mask) =
    if has_four mask then dotted (mask_ip ip mask) ++ (b'/' ∷ decimal (mask_size mask)) else []

abbrev pub ◌>>=?◌ : Option (List ℕ) → (List ℕ → Option (List ℕ)) → Option (List ℕ)
◌>>=?◌ none f = none
◌>>=?◌ (some a) f = f a

unfoldable pub cidr_of : Option (List ℕ) → Option (List ℕ) → Text
unfolding cidr
cidr_of none mask = []
cidr_of (some ip) mask = cidr ip mask

-- `widerNetworkCIDR`; `parse_ip` is `net.ParseIP`.
unfoldable pub wider_network_cidr : (Text → Option (List ℕ)) → Text → Text → Text
unfolding cidr_of to_4
wider_network_cidr parse_ip advertised_ip netmask =
    if is_empty netmask
    then []
    else cidr_of (◌>>=?◌ (parse_ip advertised_ip) to_4) (◌>>=?◌ (parse_ip netmask) to_4)
