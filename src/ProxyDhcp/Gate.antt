-- ===== src/ProxyDhcp/Gate.antt =====
-- When BuildOffer of internal/proxydhcp/proxydhcp.go answers a request.
use pxe_beacon.Base.{
  ℕ, suc, ◌≤◌, ◌≡◌, refl, ◌↔◌, ◌⊎◌, inl, inr, Bool, true, false, not, ◌&&◌, Option, none, some,
  List, [], ◌∷◌, if◌then◌else◌, is_some, arith, Bool-cases, Option-cases, pos, Text, leb,
}
use pxe_beacon.ProxyDhcp.{
  Arch, intel_x86pc, efi_ia32, efi_x86_64, efi_arm64, efi_x86_64_http, efi_arm64_http, other_arch,
  MessageType, discover, offer, request, ack, other_type, Request, Ip, Config, Decision, Reply,
}
use pxe_beacon.ProxyDhcp.Arches.{arch_table, lookup_arch}
use pxe_beacon.ProxyDhcp.Offer.{
  default_user_class, is_pxe_vendor_class, user_class_contains, machine_known, calls, was_installed,
  guard, base_reply, transport_offer, arch_offer, firmware_offer, ipxe_offer, staged_offer,
  pxe_offer, typed_offer, port_offer, v4_offer, ip_offer, build_offer, select_arch,
}

-- A configuration with which offers can be made.
pub record IsUsable (cfg : Config) (ip : Ip) (v4 : Text) (port : ℕ) : Type 0 where
  pub address : cfg.advertised_ip ≡ some ip
  pub address_v4 : ip.v4 ≡ some v4
  pub port_given : cfg.http_port ≡ pos (suc port)
  pub port_fits : suc port ≤ 65535

abbrev pub is_ipxe : Config → Request → Bool
is_ipxe cfg req = user_class_contains req.user_class (default_user_class cfg)

-- What lets the firmware of a machine boot from the network: the machine is not a named one of the
-- fleet, or something is pending for it, or nothing tells what is pending and it was not installed.
pub data IsLetThrough (cfg : Config) (req : Request) : Type 0 where
  unnamed : machine_known cfg req ≡ false → IsLetThrough cfg req
  queued : calls cfg.pending req.client_mac ≡ true → IsLetThrough cfg req
  ungated :
      cfg.pending ≡ none
      → was_installed cfg.last_event req.client_mac ≡ false
      → IsLetThrough cfg req

pub record IsAnswered (copy : Request → Option Text) (cfg : Config) (req : Request) : Type 0 where
  pub asked : (req.message_type ≡ discover) ⊎ (req.message_type ≡ request)
  pub from_pxe : is_pxe_vendor_class req.class_identifier ≡ true
  pub copied : is_some (copy req) ≡ true
  pub let_through : (is_ipxe cfg req ≡ true) ⊎ IsLetThrough cfg req

guard_sound : (cfg : Config) (req : Request) → guard cfg req ≡ none → IsLetThrough cfg req
unfolding guard
guard_sound cfg req h = elim (Bool-cases (machine_known cfg req)) [
  | inr e ↦ unnamed e
  | inl e ↦ elim (Bool-cases (calls cfg.pending req.client_mac)) [
    | inl p ↦ queued p
    | inr p ↦ elim (Bool-cases (was_installed cfg.last_event req.client_mac)) [
      | inl w ↦ absurd (ground arith)
      | inr w ↦ elim (Option-cases cfg.pending) [
        | inl n ↦ ungated n w
        | inr (f, s) ↦ absurd (ground arith)
      ]
    ]
  ]
]

pub guard_complete : (cfg : Config) (req : Request) → IsLetThrough cfg req → guard cfg req ≡ none
unfolding guard
guard_complete cfg req (unnamed e) = rw e
guard_complete cfg req (queued p) = ground (arith, p)
guard_complete cfg req (ungated n w) = ground (arith, n, w)

module _ (arch_string : Arch → Text) (copy : Request → Option Text) (cfg : Config) (ip : Ip)
    (v4 : Text) (port : ℕ) (req : Request) where
  firmware_offer-none :
      (d : Decision) (reply : Reply) (archs : List Arch)
      → is_some
          (firmware_offer arch_string copy cfg ip v4 port req
            (record d { archs = archs })
            reply
            none).reply
        ≡ true
  unfolding firmware_offer arch_offer transport_offer lookup_arch arch_table select_arch
  firmware_offer-none d reply [] = refl
  firmware_offer-none d reply (intel_x86pc ∷ archs) = refl
  firmware_offer-none d reply (efi_ia32 ∷ archs) = refl
  firmware_offer-none d reply (efi_x86_64 ∷ archs) = refl
  firmware_offer-none d reply (efi_arm64 ∷ archs) = refl
  firmware_offer-none d reply (efi_x86_64_http ∷ archs) = refl
  firmware_offer-none d reply (efi_arm64_http ∷ archs) = refl
  firmware_offer-none d reply (other_arch n ∷ archs) = refl

  staged_offer-some :
      (d : Decision) (o : Option Text)
      → is_some (staged_offer arch_string copy cfg ip v4 port req d o).reply
        ≡ (is_some o && (if d.is_ipxe_stage then true else not (is_some (guard cfg req))))
  unfolding staged_offer
  staged_offer-some d none = refl
  staged_offer-some d (some copied) = elim (Bool-cases d.is_ipxe_stage) [
    | inl e ↦ rw e (unfold ipxe_offer in refl)
    | inr e ↦ elim (Option-cases (guard cfg req)) [
      | inl n ↦
          rw (e, n)
            (firmware_offer-none (record d { is_ipxe_stage = false })
              (base_reply v4 copied req.message_type) d.archs)
      | inr (k, n) ↦ rw (e, n) (unfold firmware_offer in refl)
    ]
  ]

  pxe_offer_iff : (is_some (pxe_offer arch_string copy cfg ip v4 port req).reply ≡ true) ↔ (
      (is_pxe_vendor_class req.class_identifier ≡ true)
      × (is_some (copy req) ≡ true)
      × ((is_ipxe cfg req ≡ true) ⊎ (guard cfg req ≡ none)))
  unfolding pxe_offer
  pxe_offer_iff = elim (Bool-cases (is_pxe_vendor_class req.class_identifier)) [
    | inr e ↦ rw e (ground arith)
    | inl e ↦ rw (e, staged_offer-some) (ground arith)
  ]

  typed_offer_iff :
      (mt : MessageType)
      → (is_some (typed_offer arch_string copy cfg ip v4 port req mt).reply ≡ true) ↔ (
          ((mt ≡ discover) ⊎ (mt ≡ request))
          × (is_some (pxe_offer arch_string copy cfg ip v4 port req).reply ≡ true))
  unfolding typed_offer
  typed_offer_iff discover = (λ h. (inl refl, h), λ (k, h). h)
  typed_offer_iff request = (λ h. (inr refl, h), λ (k, h). h)
  typed_offer_iff offer = ground arith
  typed_offer_iff ack = ground arith
  typed_offer_iff (other_type n) = ground arith

pub build_offer_lem :
    (arch_string : Arch → Text) (copy : Request → Option Text) (cfg : Config) (ip : Ip) (v4 : Text)
    (port : ℕ) (req : Request)
    → IsUsable cfg ip v4 port
    → build_offer arch_string copy cfg (some req)
      ≡ typed_offer arch_string copy cfg ip v4 (suc port) req req.message_type
unfolding build_offer ip_offer v4_offer port_offer
build_offer_lem arch_string copy cfg ip v4 port req u =
    let fits : leb (suc port) 65535 ≡ true = ground (arith, u.port_fits) in
    rw (u.address, u.address_v4, u.port_given, fits)

-- With a usable configuration, a request is answered exactly when it is a DISCOVER or a REQUEST of
-- a PXE client from which a reply can be built, and it comes from iPXE, which no guard stops, or
-- from the firmware of a machine that has no name in the fleet, or has something pending, or, when
-- nothing tells what is pending, was not installed.
pub build_offer_iff :
    (arch_string : Arch → Text) (copy : Request → Option Text) (cfg : Config) (ip : Ip) (v4 : Text)
    (port : ℕ) (req : Request)
    → IsUsable cfg ip v4 port
    → (is_some (build_offer arch_string copy cfg (some req)).reply ≡ true) ↔ IsAnswered copy cfg req
build_offer_iff arch_string copy cfg ip v4 port req u =
    let typed = typed_offer_iff arch_string copy cfg ip v4 (suc port) req req.message_type in
    let pxe = pxe_offer_iff arch_string copy cfg ip v4 (suc port) req in
    rw (build_offer_lem arch_string copy cfg ip v4 port req u) (
      λ h.
          let (asked, answered) = typed.0 h in
          let (from_pxe, copied, way) = pxe.0 answered in
          record {
            asked = asked;
            from_pxe = from_pxe;
            copied = copied;
            let_through = elim way [ inl i ↦ inl i | inr g ↦ inr (guard_sound cfg req g) ];
          },
      λ (a : IsAnswered copy cfg req). typed.1 (
        a.asked,
        pxe.1 (
          a.from_pxe,
          a.copied,
          elim a.let_through [ inl i ↦ inl i | inr l ↦ inr (guard_complete cfg req l) ],
        ),
      ),
    )
