-- ===== src/ProxyDhcp/Sighted.antt =====
-- Which requests BuildOffer of internal/proxydhcp/proxydhcp.go reports as sightings, and which
-- machines of the fleet it takes for unknown.
use pxe_beacon.Base.{
  ℕ, suc, ◌≡◌, refl, sym, subst, ◌∙◌, inl, inr, Bool, true, false, not, ◌&&◌, Option, none, some,
  List, [], ◌∷◌, if◌then◌else◌, is_some, arith, Bool-cases, Text, lookup,
}
use pxe_beacon.Mac.{canonical_mac}
use pxe_beacon.Fleet.{Fleet, Profile}
use pxe_beacon.Fleet.Lookups.{lookup_machine_lem}
use pxe_beacon.ProxyDhcp.{
  Arch, intel_x86pc, efi_ia32, efi_x86_64, efi_arm64, efi_x86_64_http, efi_arm64_http, other_arch,
  MessageType, discover, offer, request, ack, other_type, Request, Ip, Config, SkipKind, Decision,
  Reply, Outcome,
}
use pxe_beacon.ProxyDhcp.Arches.{arch_table, lookup_arch}
use pxe_beacon.ProxyDhcp.Offer.{
  is_pxe_vendor_class, machine_name, machine_known, guard, base_reply, sighting, transport_offer,
  arch_offer, firmware_offer, ipxe_offer, staged_offer, pxe_offer, typed_offer, build_offer,
  select_arch,
}
use pxe_beacon.ProxyDhcp.Gate.{IsUsable, unnamed, is_ipxe, build_offer_lem, build_offer_iff}

module _ (arch_string : Arch → Text) (copy : Request → Option Text) (cfg : Config) (ip : Ip)
    (v4 : Text) (port : ℕ) (req : Request) where
  -- The outcome reports a sighting for each answered firmware request of an unknown machine.
  abbrev Reports : Outcome → Type 0
  Reports o = is_some o.noted ≡ (
      is_some o.reply
      && (not (is_ipxe cfg req) && (not (machine_known cfg req) && cfg.notes_sightings)))

  is_some-sighting :
      (a : Arch)
      → is_some (sighting arch_string copy cfg ip v4 port req a)
        ≡ (not (machine_known cfg req) && cfg.notes_sightings)
  unfolding sighting
  is_some-sighting a = ground arith

  firmware_offer-Reports :
      (d : Decision) (reply : Reply) (archs : List Arch)
      → is_ipxe cfg req ≡ false
      → Reports (
          firmware_offer arch_string copy cfg ip v4 port req
            (record d { archs = archs })
            reply
            none)
  unfolding firmware_offer arch_offer transport_offer lookup_arch arch_table select_arch
  firmware_offer-Reports d reply [] e = is_some-sighting (intel_x86pc) ∙ rw e
  firmware_offer-Reports d reply (intel_x86pc ∷ archs) e = is_some-sighting (intel_x86pc) ∙ rw e
  firmware_offer-Reports d reply (efi_ia32 ∷ archs) e = is_some-sighting (efi_ia32) ∙ rw e
  firmware_offer-Reports d reply (efi_x86_64 ∷ archs) e = is_some-sighting (efi_x86_64) ∙ rw e
  firmware_offer-Reports d reply (efi_arm64 ∷ archs) e = is_some-sighting (efi_arm64) ∙ rw e
  firmware_offer-Reports d reply (efi_x86_64_http ∷ archs) e =
      is_some-sighting (efi_x86_64_http) ∙ rw e
  firmware_offer-Reports d reply (efi_arm64_http ∷ archs) e =
      is_some-sighting (efi_arm64_http) ∙ rw e
  firmware_offer-Reports d reply (other_arch n ∷ archs) e = is_some-sighting (other_arch n) ∙ rw e

  guarded_offer-Reports :
      (d : Decision) (reply : Reply) (g : Option SkipKind)
      → is_ipxe cfg req ≡ false
      → Reports (firmware_offer arch_string copy cfg ip v4 port req d reply g)
  guarded_offer-Reports d reply (some kind) e = unfold firmware_offer in refl
  guarded_offer-Reports d reply none e = firmware_offer-Reports d reply d.archs e

  ipxe_offer-Reports :
      (d : Decision) (reply : Reply)
      → is_ipxe cfg req ≡ true
      → Reports (ipxe_offer arch_string copy cfg ip v4 port req d reply)
  unfolding ipxe_offer
  ipxe_offer-Reports d reply e = rw e

  staged_offer-Reports :
      (d : Decision) (o : Option Text)
      → is_ipxe cfg req ≡ d.is_ipxe_stage
      → Reports (staged_offer arch_string copy cfg ip v4 port req d o)
  unfolding staged_offer
  staged_offer-Reports d none stage = refl
  staged_offer-Reports d (some copied) stage =
      let reply = base_reply v4 copied req.message_type in
      let split : Bool → Outcome = λ b.
        if b
        then ipxe_offer arch_string copy cfg ip v4 port req d reply
        else firmware_offer arch_string copy cfg ip v4 port req d reply (guard cfg req) in
      elim (Bool-cases d.is_ipxe_stage) [
        | inl e ↦
            subst (λ (b : Bool). Reports (split b)) (sym e) (ipxe_offer-Reports d reply (stage ∙ e))
        | inr e ↦
            subst (λ (b : Bool). Reports (split b)) (sym e)
              (guarded_offer-Reports d reply (guard cfg req) (stage ∙ e))
      ]

  pxe_offer-Reports : Reports (pxe_offer arch_string copy cfg ip v4 port req)
  unfolding pxe_offer
  pxe_offer-Reports = elim (Bool-cases (is_pxe_vendor_class req.class_identifier)) [
    | inr e ↦ rw e refl
    | inl e ↦ rw e (staged_offer-Reports _ (copy req) refl)
  ]

  typed_offer-Reports :
      (mt : MessageType) → Reports (typed_offer arch_string copy cfg ip v4 port req mt)
  unfolding typed_offer
  typed_offer-Reports discover = pxe_offer-Reports
  typed_offer-Reports request = pxe_offer-Reports
  typed_offer-Reports offer = refl
  typed_offer-Reports ack = refl
  typed_offer-Reports (other_type n) = refl

-- With a usable configuration that has a sightings callback, a request is reported as a sighting
-- exactly when it is answered, does not come from iPXE, and its machine has no name in the fleet.
pub build_offer-Reports :
    (arch_string : Arch → Text) (copy : Request → Option Text) (cfg : Config) (ip : Ip) (v4 : Text)
    (port : ℕ) (req : Request)
    → IsUsable cfg ip v4 port
    → cfg.notes_sightings ≡ true
    → is_some (build_offer arch_string copy cfg (some req)).noted ≡ (
        is_some (build_offer arch_string copy cfg (some req)).reply
        && (not (is_ipxe cfg req) && not (machine_known cfg req)))
build_offer-Reports arch_string copy cfg ip v4 port req u notes =
    let reports = typed_offer-Reports arch_string copy cfg ip v4 (suc port) req req.message_type in
    rw (build_offer_lem arch_string copy cfg ip v4 port req u) (ground (arith, reports, notes))

unnamed-machine_known :
    (cfg : Config) (req : Request) (f : Fleet) (c : Text) (p : Profile)
    → cfg.fleet ≡ some f
    → canonical_mac req.client_mac ≡ some c
    → lookup c f.machines ≡ some p
    → p.name ≡ []
    → machine_known cfg req ≡ false
unfolding machine_known machine_name
unnamed-machine_known cfg req f c p fleet known found nameless =
    rw (fleet, machine_name, lookup_machine_lem f req.client_mac c p known found, nameless)

-- A machine that stands in the fleet without a name is answered in the firmware stage like an
-- unknown one: with a usable configuration, each DISCOVER of its PXE firmware from which a reply
-- can be built gets one, even if nothing is pending for it.
pub nameless_answered :
    (arch_string : Arch → Text) (copy : Request → Option Text) (cfg : Config) (ip : Ip) (v4 : Text)
    (port : ℕ) (req : Request) (f : Fleet) (c : Text) (p : Profile)
    → IsUsable cfg ip v4 port
    → cfg.fleet ≡ some f
    → canonical_mac req.client_mac ≡ some c
    → lookup c f.machines ≡ some p
    → p.name ≡ []
    → req.message_type ≡ discover
    → is_pxe_vendor_class req.class_identifier ≡ true
    → is_some (copy req) ≡ true
    → is_some (build_offer arch_string copy cfg (some req)).reply ≡ true
nameless_answered arch_string copy cfg ip v4 port req f c p u fleet known found nameless asked
      from_pxe copied =
    (build_offer_iff arch_string copy cfg ip v4 port req u).1 (record {
      asked = inl asked;
      from_pxe = from_pxe;
      copied = copied;
      let_through = inr (unnamed (unnamed-machine_known cfg req f c p fleet known found nameless));
    })
