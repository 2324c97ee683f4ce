-- ===== src/ProxyDhcp/Answer.antt =====
-- What BuildOffer of internal/proxydhcp/proxydhcp.go puts into a reply, and what it reports.
use pxe_beacon.Base.{
  ℕ, suc, ◌≡◌, refl, sym, subst, ◌∙◌, inl, inr, Bool, true, false, Option, none, some, List, [],
  ◌∷◌, ◌++◌, if◌then◌else◌, is_some, Bool-cases, Text, bytes,
}
use pxe_beacon.ProxyDhcp.{
  Arch, intel_x86pc, efi_ia32, efi_x86_64, efi_arm64, efi_x86_64_http, efi_arm64_http, other_arch,
  MessageType, discover, offer, request, ack, other_type, Request, Ip, Config, SkipKind,
  not_skipped, Stage, ipxe_script, firmware_tftp, firmware_http, Decision, Reply, Outcome,
}
use pxe_beacon.ProxyDhcp.Arches.{arch_table, lookup_arch}
use pxe_beacon.ProxyDhcp.Offer.{
  is_pxe_vendor_class, guard, parsed, base_reply, answer_type, http_url, script_url,
  transport_offer, arch_offer, firmware_offer, ipxe_offer, staged_offer, pxe_offer, typed_offer,
  build_offer, select_arch,
}
use pxe_beacon.ProxyDhcp.Gate.{IsUsable, is_ipxe, build_offer_lem}

-- How the reply says where the boot file is. The file is the one that the table has for the first
-- architecture that the client names.
unfoldable pub IsBootFile : Config → Ip → Text → ℕ → Request → Stage → Reply → Type 0
IsBootFile cfg ip v4 port req ipxe_script r =
    (is_ipxe cfg req ≡ true) × (r.boot_file_name ≡ http_url ip port cfg.ipxe_script_path)
IsBootFile cfg ip v4 port req firmware_tftp r =
    (is_ipxe cfg req ≡ false)
    × (r.boot_file_name ≡ (lookup_arch (select_arch req.client_arch)).0.boot_file)
    × (r.server_ip ≡ some v4)
    × (r.tftp_server_name ≡ some ip.text)
IsBootFile cfg ip v4 port req firmware_http r =
    (is_ipxe cfg req ≡ false)
    × (r.boot_file_name
        ≡ http_url ip port (bytes "/" ++ (lookup_arch (select_arch req.client_arch)).0.boot_file))
    × (r.class_identifier ≡ bytes "HTTPClient")
IsBootFile cfg ip v4 port req stage r = ⊥

-- A DISCOVER is answered by an OFFER and a REQUEST by an ACK.
unfoldable pub IsAnswerTo : MessageType → MessageType → Type 0
IsAnswerTo discover mt = mt ≡ offer
IsAnswerTo request mt = mt ≡ ack
IsAnswerTo asked mt = ⊥

-- The outcome `o` carries a reply that is in order.
pub record IsGoodReply (cfg : Config) (ip : Ip) (v4 : Text) (port : ℕ) (req : Request) (o : Outcome)
    (r : Reply) : Type 0 where
  pub message_type : IsAnswerTo req.message_type r.message_type
  pub no_address : r.your_ip_is_zero ≡ true
  pub same_file : r.boot_file_option ≡ some r.boot_file_name
  pub logged_file : o.decision.boot_file ≡ r.boot_file_name
  pub logged_server : o.decision.next_server ≡ ip.text
  pub no_skip : o.decision.skip ≡ not_skipped
  pub no_error : o.error ≡ none
  pub boot_file : IsBootFile cfg ip v4 port req o.decision.stage r

-- A reply, if there is one, is in order.
abbrev pub IsGood : Config → Ip → Text → ℕ → Request → Outcome → Option Reply → Type 0
IsGood cfg ip v4 port req o none = is_some o.error ≡ true
IsGood cfg ip v4 port req o (some r) = IsGoodReply cfg ip v4 port req o r

module _ (arch_string : Arch → Text) (copy : Request → Option Text) (cfg : Config) (ip : Ip)
    (v4 : Text) (port : ℕ) (req : Request) where
  abbrev Good : Outcome → Type 0
  Good o = IsGood cfg ip v4 port req o o.reply

  -- The decision when the firmware is let through, for the architectures `archs`.
  firmware_offer-Good :
      (d : Decision) (copied : Text) (archs : List Arch)
      → req.client_arch ≡ archs
      → is_ipxe cfg req ≡ false
      → d.skip ≡ not_skipped
      → IsAnswerTo req.message_type (answer_type req.message_type)
      → Good (
          firmware_offer arch_string copy cfg ip v4 port req
            (record d { archs = archs })
            (base_reply v4 copied req.message_type)
            none)
  unfolding firmware_offer arch_offer transport_offer lookup_arch arch_table select_arch base_reply
      IsBootFile
  firmware_offer-Good d copied [] same e clear asked = record {
    message_type = asked;
    no_address = refl;
    same_file = refl;
    logged_file = refl;
    logged_server = refl;
    no_skip = clear;
    no_error = refl;
    boot_file = rw same (e, refl, refl, refl);
  }
  firmware_offer-Good d copied (intel_x86pc ∷ archs) same e clear asked = record {
    message_type = asked;
    no_address = refl;
    same_file = refl;
    logged_file = refl;
    logged_server = refl;
    no_skip = clear;
    no_error = refl;
    boot_file = rw same (e, refl, refl, refl);
  }
  firmware_offer-Good d copied (efi_ia32 ∷ archs) same e clear asked = record {
    message_type = asked;
    no_address = refl;
    same_file = refl;
    logged_file = refl;
    logged_server = refl;
    no_skip = clear;
    no_error = refl;
    boot_file = rw same (e, refl, refl, refl);
  }
  firmware_offer-Good d copied (efi_x86_64 ∷ archs) same e clear asked = record {
    message_type = asked;
    no_address = refl;
    same_file = refl;
    logged_file = refl;
    logged_server = refl;
    no_skip = clear;
    no_error = refl;
    boot_file = rw same (e, refl, refl, refl);
  }
  firmware_offer-Good d copied (efi_arm64 ∷ archs) same e clear asked = record {
    message_type = asked;
    no_address = refl;
    same_file = refl;
    logged_file = refl;
    logged_server = refl;
    no_skip = clear;
    no_error = refl;
    boot_file = rw same (e, refl, refl, refl);
  }
  firmware_offer-Good d copied (efi_x86_64_http ∷ archs) same e clear asked = record {
    message_type = asked;
    no_address = refl;
    same_file = refl;
    logged_file = refl;
    logged_server = refl;
    no_skip = clear;
    no_error = refl;
    boot_file = rw same (e, refl, refl);
  }
  firmware_offer-Good d copied (efi_arm64_http ∷ archs) same e clear asked = record {
    message_type = asked;
    no_address = refl;
    same_file = refl;
    logged_file = refl;
    logged_server = refl;
    no_skip = clear;
    no_error = refl;
    boot_file = rw same (e, refl, refl);
  }
  firmware_offer-Good d copied (other_arch n ∷ archs) same e clear asked = record {
    message_type = asked;
    no_address = refl;
    same_file = refl;
    logged_file = refl;
    logged_server = refl;
    no_skip = clear;
    no_error = refl;
    boot_file = rw same (e, refl, refl, refl);
  }

  guarded_offer-Good :
      (d : Decision) (copied : Text) (g : Option SkipKind)
      → req.client_arch ≡ d.archs
      → is_ipxe cfg req ≡ false
      → d.skip ≡ not_skipped
      → IsAnswerTo req.message_type (answer_type req.message_type)
      → Good (
          firmware_offer arch_string copy cfg ip v4 port req d
            (base_reply v4 copied req.message_type)
            g)
  guarded_offer-Good d copied (some kind) same e clear asked = unfold firmware_offer in refl
  guarded_offer-Good d copied none same e clear asked =
      firmware_offer-Good d copied d.archs same e clear asked

  ipxe_offer-Good :
      (d : Decision) (copied : Text)
      → is_ipxe cfg req ≡ true
      → d.skip ≡ not_skipped
      → IsAnswerTo req.message_type (answer_type req.message_type)
      → Good
          (ipxe_offer arch_string copy cfg ip v4 port req d (base_reply v4 copied req.message_type))
  unfolding ipxe_offer base_reply script_url IsBootFile
  ipxe_offer-Good d copied e clear asked = record {
    message_type = asked;
    no_address = refl;
    same_file = refl;
    logged_file = refl;
    logged_server = refl;
    no_skip = clear;
    no_error = refl;
    boot_file = (e, refl);
  }

  staged_offer-Good :
      (d : Decision) (o : Option Text)
      → req.client_arch ≡ d.archs
      → is_ipxe cfg req ≡ d.is_ipxe_stage
      → d.skip ≡ not_skipped
      → IsAnswerTo req.message_type (answer_type req.message_type)
      → Good (staged_offer arch_string copy cfg ip v4 port req d o)
  unfolding staged_offer
  staged_offer-Good d none same stage clear asked = refl
  staged_offer-Good d (some copied) same stage clear asked =
      let reply = base_reply v4 copied req.message_type in
      elim (Bool-cases d.is_ipxe_stage) [
        | inl e ↦
            subst
              (λ (b : Bool). Good (
                if b
                then ipxe_offer arch_string copy cfg ip v4 port req d reply
                else firmware_offer arch_string copy cfg ip v4 port req d reply (guard cfg req)))
              (sym e) (ipxe_offer-Good d copied (stage ∙ e) clear asked)
        | inr e ↦
            subst
              (λ (b : Bool). Good (
                if b
                then ipxe_offer arch_string copy cfg ip v4 port req d reply
                else firmware_offer arch_string copy cfg ip v4 port req d reply (guard cfg req)))
              (sym e) (guarded_offer-Good d copied (guard cfg req) same (stage ∙ e) clear asked)
      ]

  pxe_offer-Good :
      IsAnswerTo req.message_type (answer_type req.message_type)
      → Good (pxe_offer arch_string copy cfg ip v4 port req)
  unfolding pxe_offer parsed
  pxe_offer-Good asked = elim (Bool-cases (is_pxe_vendor_class req.class_identifier)) [
    | inr e ↦ rw e refl
    | inl e ↦ rw e (staged_offer-Good _ (copy req) refl refl refl asked)
  ]

  typed_offer-Good :
      (mt : MessageType)
      → mt ≡ req.message_type
      → Good (typed_offer arch_string copy cfg ip v4 port req mt)
  unfolding typed_offer answer_type IsAnswerTo
  typed_offer-Good discover h =
      pxe_offer-Good (subst (λ (x : MessageType). IsAnswerTo x (answer_type x)) h refl)
  typed_offer-Good request h =
      pxe_offer-Good (subst (λ (x : MessageType). IsAnswerTo x (answer_type x)) h refl)
  typed_offer-Good offer h = refl
  typed_offer-Good ack h = refl
  typed_offer-Good (other_type n) h = refl

-- With a usable configuration, each request gets either an error or a reply that is in order: it
-- answers a REQUEST with an ACK and a DISCOVER with an OFFER, assigns no address, names one boot
-- file in the header, in option 67 and in the decision, and this is the script of the configuration
-- for iPXE and otherwise the file of the table for the first architecture of the client, by TFTP or
-- by HTTP as the decision says.
pub build_offer-IsGood :
    (arch_string : Arch → Text) (copy : Request → Option Text) (cfg : Config) (ip : Ip) (v4 : Text)
    (port : ℕ) (req : Request)
    → IsUsable cfg ip v4 port
    → IsGood cfg ip v4
        (suc port)
        req
        (build_offer arch_string copy cfg (some req))
        (build_offer arch_string copy cfg (some req)).reply
build_offer-IsGood arch_string copy cfg ip v4 port req u =
    rw (build_offer_lem arch_string copy cfg ip v4 port req u)
      (typed_offer-Good arch_string copy cfg ip v4 (suc port) req req.message_type refl)
