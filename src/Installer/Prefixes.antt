-- ===== src/Installer/Prefixes.antt =====
-- The network that widerNetworkCIDR names, against the division of the address, as a number of 32
-- bits, by the size of the network.
use Prim.Native.Nat.{bit_and, min}
use pxe_beacon.Base.{
  ℕ, zero, suc, ◌+◌, ◌-◌, ◌*◌, ◌/◌, ◌^◌, ◌<◌, ◌≤◌, ◌==◌, ==_iff, ◌≡◌, refl, inl, inr, Bool, true,
  false, ◌&&◌, Option, none, some, List, [], ◌∷◌, ◌++◌, arith, leb, Bool-cases, All, is_empty,
  all_of, Text, text_eq, decimal,
}
use pxe_beacon.Installer.Networks.{
  to_4, mask_ip, leading_ones, mask_length, mask_size, dotted, has_four, cidr, cidr_of,
  wider_network_cidr,
}

-- The sixteen bytes of an IPv4 address.
abbrev pub ipv4 : List ℕ → List ℕ
ipv4 ip = 0 ∷ 0 ∷ 0 ∷ 0 ∷ 0 ∷ 0 ∷ 0 ∷ 0 ∷ 0 ∷ 0 ∷ 255 ∷ 255 ∷ ip

abbrev pub word : ℕ → ℕ → ℕ → ℕ → ℕ
word a b c d = a * 16777216 + b * 65536 + c * 256 + d

-- The byte with `k` ones before zeros.
ones : ℕ → ℕ
ones k = 256 - 2 ^ (8 - k)

-- The mask with `n` ones before zeros.
unfoldable pub mask_of : ℕ → List ℕ
unfolding ones
mask_of n =
    ones (min 8 n) ∷ ones (min 8 (n - 8)) ∷ ones (min 8 (n - 16)) ∷ ones (min 8 (n - 24)) ∷ []

-- Whether a test holds of `count` numbers in a row.
holds_from : (first count : ℕ) → (ℕ → Bool) → Bool
holds_from first zero test = true
holds_from first (suc count) test = test first && holds_from (suc first) count test

test_held :
    (first count : ℕ) (test : ℕ → Bool) (n : ℕ)
    → holds_from first count test ≡ true
    → first ≤ n
    → n < first + count
    → test n ≡ true
unfolding holds_from
test_held first zero test n held low high = absurd (omega arith)
test_held first (suc count) test n held low high =
    ground (arith, test_held (suc first) count test n)

has_length : List ℕ → ℕ → Bool
has_length mask n = elim (mask_length mask) [ none ↦ false | some k ↦ k == n ]

length_table : holds_from 0 33 (λ n. has_length (mask_of n) n) ≡ true
unfolding holds_from has_length mask_length leading_ones mask_of all_of
length_table = refl

sized : (mask : List ℕ) (n : ℕ) → has_length mask n ≡ true → mask_size mask ≡ n
unfolding mask_size has_length
sized mask n h = ground arith

mask_size-mask_of : (n : ℕ) → n ≤ 32 → mask_size (mask_of n) ≡ n
mask_size-mask_of n h =
    sized (mask_of n) n
      (test_held 0 33 (λ n. has_length (mask_of n) n) n length_table (omega arith) (omega arith))

-- A byte without its last `8 - k` bits.
abbrev keep : ℕ → ℕ → ℕ
keep k b = b / 2 ^ (8 - k) * 2 ^ (8 - k)

keep_table : holds_from 0 9 (λ k. holds_from 0 256 (λ b. bit_and b (ones k) == keep k b)) ≡ true
unfolding holds_from ones
keep_table = refl

bit_and-ones : (k b : ℕ) → k ≤ 8 → b < 256 → bit_and b (ones k) ≡ keep k b
bit_and-ones k b h lt = (==_iff _ _).0 (
    test_held 0 256 (λ b. bit_and b (ones k) == keep k b) b
      (test_held 0 9 (λ k. holds_from 0 256 (λ b. bit_and b (ones k) == keep k b)) k keep_table
        (omega arith) (omega arith))
      (omega arith) lt)

-- A fact for each number of ones in a byte.
nine :
    (P : ℕ → Type 0) → P 0 → P 1 → P 2 → P 3 → P 4 → P 5 → P 6 → P 7 → P 8 → (k : ℕ) → k ≤ 8 → P k
nine P a b c d e f g h i zero l = a
nine P a b c d e f g h i (suc zero) l = b
nine P a b c d e f g h i (suc (suc zero)) l = c
nine P a b c d e f g h i (suc (suc (suc zero))) l = d
nine P a b c d e f g h i (suc (suc (suc (suc zero)))) l = e
nine P a b c d e f g h i (suc (suc (suc (suc (suc zero))))) l = f
nine P a b c d e f g h i (suc (suc (suc (suc (suc (suc zero)))))) l = g
nine P a b c d e f g h i (suc (suc (suc (suc (suc (suc (suc zero))))))) l = h
nine P a b c d e f g h i (suc (suc (suc (suc (suc (suc (suc (suc zero)))))))) l = i
nine P a b c d e f g h i (suc (suc (suc (suc (suc (suc (suc (suc (suc k))))))))) l =
    absurd (omega arith)

keep-lt : (b k : ℕ) → k ≤ 8 → b < 256 → keep k b < 256
keep-lt b k l lt =
    nine (λ k. keep k b < 256) (omega arith) (omega arith) (omega arith) (omega arith) (omega arith)
      (omega arith) (omega arith) (omega arith) (omega arith) k l

module _ (a b c d : ℕ) (ha : a < 256) (hb : b < 256) (hc : c < 256) (hd : d < 256) where
  -- The number without its last `m - k` bits, where `m` is a multiple of eight.
  abbrev cut : ℕ → ℕ → ℕ
  cut m k = word a b c d / 2 ^ (m - k) * 2 ^ (m - k)

  cut_first : (k : ℕ) → k ≤ 8 → word (keep k a) 0 0 0 ≡ cut 32 k
  cut_first =
      nine (λ k. word (keep k a) 0 0 0 ≡ cut 32 k) (omega arith) (omega arith) (omega arith)
        (omega arith) (omega arith) (omega arith) (omega arith) (omega arith) (omega arith)

  cut_second : (k : ℕ) → k ≤ 8 → word (keep 8 a) (keep k b) 0 0 ≡ cut 24 k
  cut_second =
      nine (λ k. word (keep 8 a) (keep k b) 0 0 ≡ cut 24 k) (omega arith) (omega arith)
        (omega arith) (omega arith) (omega arith) (omega arith) (omega arith) (omega arith)
        (omega arith)

  cut_third : (k : ℕ) → k ≤ 8 → word (keep 8 a) (keep 8 b) (keep k c) 0 ≡ cut 16 k
  cut_third =
      nine (λ k. word (keep 8 a) (keep 8 b) (keep k c) 0 ≡ cut 16 k) (omega arith) (omega arith)
        (omega arith) (omega arith) (omega arith) (omega arith) (omega arith) (omega arith)
        (omega arith)

  cut_fourth : (k : ℕ) → k ≤ 8 → word (keep 8 a) (keep 8 b) (keep 8 c) (keep k d) ≡ cut 8 k
  cut_fourth =
      nine (λ k. word (keep 8 a) (keep 8 b) (keep 8 c) (keep k d) ≡ cut 8 k) (omega arith)
        (omega arith) (omega arith) (omega arith) (omega arith) (omega arith) (omega arith)
        (omega arith) (omega arith)

  low : (x : ℕ) → x < 256 → keep 0 x ≡ 0
  low x h = omega arith

  -- The four bytes of the network.
  network_word :
      (n : ℕ)
      → n ≤ 32
      → word
          (keep (min 8 n) a)
          (keep (min 8 (n - 8)) b)
          (keep (min 8 (n - 16)) c)
          (keep (min 8 (n - 24)) d)
        ≡ cut 32 n
  network_word n h = elim (Bool-cases (leb n 8)) [
    | inl first ↦
        let e1 : min 8 n ≡ n = ground arith in
        let e2 : min 8 (n - 8) ≡ 0 = ground arith in
        let e3 : min 8 (n - 16) ≡ 0 = ground arith in
        let e4 : min 8 (n - 24) ≡ 0 = ground arith in
        rw (e1, e2, e3, e4, low b hb, low c hc, low d hd) (cut_first n (ground arith))
    | inr past8 ↦ elim (Bool-cases (leb n 16)) [
      | inl second ↦
          let e1 : min 8 n ≡ 8 = ground arith in
          let e2 : min 8 (n - 8) ≡ n - 8 = ground arith in
          let e3 : min 8 (n - 16) ≡ 0 = ground arith in
          let e4 : min 8 (n - 24) ≡ 0 = ground arith in
          let e : 32 - n ≡ 24 - (n - 8) = ground arith in
          rw (e1, e2, e3, e4, low c hc, low d hd, e) (cut_second (n - 8) (ground arith))
      | inr past16 ↦ elim (Bool-cases (leb n 24)) [
        | inl third ↦
            let e1 : min 8 n ≡ 8 = ground arith in
            let e2 : min 8 (n - 8) ≡ 8 = ground arith in
            let e3 : min 8 (n - 16) ≡ n - 16 = ground arith in
            let e4 : min 8 (n - 24) ≡ 0 = ground arith in
            let e : 32 - n ≡ 16 - (n - 16) = ground arith in
            rw (e1, e2, e3, e4, low d hd, e) (cut_third (n - 16) (ground arith))
        | inr fourth ↦
            let e1 : min 8 n ≡ 8 = ground arith in
            let e2 : min 8 (n - 8) ≡ 8 = ground arith in
            let e3 : min 8 (n - 16) ≡ 8 = ground arith in
            let e4 : min 8 (n - 24) ≡ n - 24 = ground arith in
            let e : 32 - n ≡ 8 - (n - 24) = ground arith in
            rw (e1, e2, e3, e4, e) (cut_fourth (n - 24) (ground arith))
      ]
    ]
  ]

  four_bytes : (n : ℕ) → has_four (mask_of n) ≡ true
  unfolding has_four mask_of
  four_bytes n = refl

  mask_ip-mask_of :
      (n : ℕ)
      → mask_ip (a ∷ b ∷ c ∷ d ∷ []) (mask_of n)
        ≡ keep (min 8 n) a
          ∷ keep (min 8 (n - 8)) b
          ∷ keep (min 8 (n - 16)) c
          ∷ keep (min 8 (n - 24)) d
          ∷ []
  unfolding mask_ip mask_of
  mask_ip-mask_of n =
      rw
        (
          bit_and-ones (min 8 n) a (omega arith) ha,
          bit_and-ones (min 8 (n - 8)) b (omega arith) hb,
          bit_and-ones (min 8 (n - 16)) c (omega arith) hc,
          bit_and-ones (min 8 (n - 24)) d (omega arith) hd,
        )
        refl

  cidr-mask_of :
      (n : ℕ)
      → n ≤ 32
      → cidr (a ∷ b ∷ c ∷ d ∷ []) (some (mask_of n))
        ≡ dotted (
            keep (min 8 n) a
            ∷ keep (min 8 (n - 8)) b
            ∷ keep (min 8 (n - 16)) c
            ∷ keep (min 8 (n - 24)) d
            ∷ [])
          ++ (b'/' ∷ decimal n)
  unfolding cidr
  cidr-mask_of n h = rw (four_bytes n, mask_ip-mask_of n, mask_size-mask_of n h) refl

-- For a server with the IPv4 address `a.b.c.d` and a netmask of `n` ones before zeros, the text is
-- a network with the length `n`: its address, as a number of 32 bits, is the greatest multiple of
-- the size of the network that is not above the address of the server, and it is written as four
-- bytes. The netmask is set, and the two texts are what the parser reads as the address and as the
-- mask.
pub wider_network_cidr-word :
    (parse_ip : Text → Option (List ℕ)) (advertised_ip netmask : Text) (a b c d n : ℕ)
    → a < 256
    → b < 256
    → c < 256
    → d < 256
    → n ≤ 32
    → is_empty netmask ≡ false
    → parse_ip advertised_ip ≡ some (ipv4 (a ∷ b ∷ c ∷ d ∷ []))
    → parse_ip netmask ≡ some (ipv4 (mask_of n))
    → (e f g h : ℕ) × (wider_network_cidr parse_ip advertised_ip netmask
        ≡ dotted (e ∷ f ∷ g ∷ h ∷ []) ++ (b'/' ∷ decimal n))
      × (word e f g h ≡ word a b c d / 2 ^ (32 - n) * 2 ^ (32 - n))
      × All (λ x. x < 256) (e ∷ f ∷ g ∷ h ∷ [])
unfolding wider_network_cidr
wider_network_cidr-word parse_ip advertised_ip netmask a b c d n ha hb hc hd h set address mask = (
  keep (min 8 n) a,
  keep (min 8 (n - 8)) b,
  keep (min 8 (n - 16)) c,
  keep (min 8 (n - 24)) d,
  rw (set, address, mask) (unfold to_4 text_eq cidr_of in cidr-mask_of a b c d ha hb hc hd n h),
  network_word a b c d ha hb hc hd n h,
  (
    keep-lt a (min 8 n) (omega arith) ha,
    (
      keep-lt b (min 8 (n - 8)) (omega arith) hb,
      (
        keep-lt c (min 8 (n - 16)) (omega arith) hc,
        (keep-lt d (min 8 (n - 24)) (omega arith) hd, tt),
      ),
    ),
  ),
)
