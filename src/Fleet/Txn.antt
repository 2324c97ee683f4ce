-- ===== src/Fleet/Txn.antt =====
-- internal/fleet/txn.go: entity tags and the transactions that change one machine and save. The
-- digest is a parameter. A transaction holds `saveMu` from its comparison to its rollback, so it is
-- one step on the fleet in memory and the file.
use pxe_beacon.Base.{
  ◌/◌, ◌%◌, Bool, true, false, ◌&&◌, not, Option, none, some, List, [], ◌∷◌, ◌++◌, if◌then◌else◌,
  is_empty, Text, bytes, text_eq, text_lt, take, Map, lookup, insert, delete, sort_by, Result, ok,
  err,
}
use mathlib.Core.Option
use pxe_beacon.Mac.{canonical_mac, hex_digit}
use pxe_beacon.Fleet.{
  Profile, Machine, ConfigFile, Fleet, FleetError, invalid_mac, mac_exists, mac_absent,
  precondition_failed, precondition_required, not_saved, Disk, SaveError,
}
use pxe_beacon.Fleet.Validate.{validate_profile}
use pxe_beacon.Fleet.Saving.{Fault, save}

-- Each text followed by a NUL byte, in order.
unfoldable pub nul_ended : List Text → Text
nul_ended [] = []
nul_ended (t ∷ ts) = t ++ (0 ∷ nul_ended ts)

unfoldable pub param_texts : Map Text → List Text
param_texts [] = []
param_texts ((k, v) ∷ m) = k ∷ v ∷ param_texts m

-- By key; the keys of a map are distinct, so each value stays with its key.
unfoldable pub key_less : Text × Text → Text × Text → Bool
key_less (k, v) (k', v') = text_lt k k'

-- What is hashed for one machine.
unfoldable pub etag_input : Text → Profile → Text
unfolding nul_ended param_texts key_less
etag_input canon p = nul_ended (
    canon
    ∷ p.boot
    ∷ p.name
    ∷ p.cloud_init
    ∷ p.preseed
    ∷ p.kickstart
    ∷ p.ipxe_script
    ∷ param_texts (sort_by key_less p.params))

-- `hex.EncodeToString`
unfoldable pub hex_text : Text → Text
hex_text [] = []
hex_text (b ∷ s) = hex_digit (b / 16) ∷ hex_digit (b % 16) ∷ hex_text s

-- `profileETag`; `digest` is SHA-256.
unfoldable pub profile_etag : (Text → Text) → Text → Profile → Text
profile_etag digest canon p =
    bytes "W/\"" ++ (hex_text (take 16 (digest (etag_input canon p))) ++ bytes "\"")

unfoldable pub etag_of : (Text → Text) → Fleet → Option Text → Option Text
etag_of digest f none = none
etag_of digest f (some canon) = Option.map (profile_etag digest canon) (lookup canon f.machines)

-- `ETag`
unfoldable pub etag : (Text → Text) → Fleet → Text → Option Text
etag digest f mac = etag_of digest f (canonical_mac mac)

-- The fleet in memory, and the file fleet.yaml.
pub record World : Type 0 where
  pub fleet : Fleet
  pub file : Option Text

abbrev pub with_machines : Fleet → Map Profile → Fleet
with_machines f machines = record f { machines = machines }

-- The end of a transaction: the file and the error of `Save` decide between the new machines and
-- the rollback.
unfoldable pub settle {ℓ} :
    {A : Type ℓ}
    → Fleet
    → Map Profile
    → Map Profile
    → A
    → Option Text × Option SaveError
    → World × Result FleetError A
settle f new back a (file, none) = (record { fleet = with_machines f new; file = file }, ok a)
settle f new back a (file, some e) =
    (record { fleet = with_machines f back; file = file }, err (not_saved e))

module _ (digest : Text → Text) (encode : ConfigFile → Option Text) (disk : Disk)
    (fault : Fault) where
  unfoldable pub create_new :
      World → Text → Profile → Option Profile → World × Result FleetError Text
  create_new w canon p (some prior) = (w, err mac_exists)
  create_new w canon p none =
      let new = insert canon p w.fleet.machines in
      settle w.fleet new (delete canon new) (profile_etag digest canon p)
        (save encode fault (with_machines w.fleet new) w.file)

  unfoldable pub create_valid :
      World → Profile → Option Text → Option FleetError → World × Result FleetError Text
  create_valid w p none invalid = (w, err invalid_mac)
  create_valid w p (some canon) (some e) = (w, err e)
  create_valid w p (some canon) none = create_new w canon p (lookup canon w.fleet.machines)

  -- `CreateAndSave`
  unfoldable pub create_and_save : World → Machine → World × Result FleetError Text
  create_and_save w m =
      create_valid w m.profile (canonical_mac m.mac) (validate_profile disk m.profile)

  unfoldable pub update_prior :
      World → Text → Profile → Text → Option Profile → World × Result FleetError Text
  update_prior w canon p if_match none = (w, err mac_absent)
  update_prior w canon p if_match (some prior) =
      let new = insert canon p w.fleet.machines in
      let saved =
        settle w.fleet new (insert canon prior new) (profile_etag digest canon p)
          (save encode fault (with_machines w.fleet new) w.file) in
      if text_eq (profile_etag digest canon prior) if_match
      then saved
      else (w, err precondition_failed)

  unfoldable pub update_valid :
      World → Profile → Text → Option Text → Option FleetError → World × Result FleetError Text
  update_valid w p if_match none invalid = (w, err invalid_mac)
  update_valid w p if_match (some canon) (some e) = (w, err e)
  update_valid w p if_match (some canon) none =
      if is_empty if_match
      then (w, err precondition_required)
      else update_prior w canon p if_match (lookup canon w.fleet.machines)

  -- `UpdateAndSave`
  unfoldable pub update_and_save : World → Machine → Text → World × Result FleetError Text
  update_and_save w m if_match =
      update_valid w m.profile if_match (canonical_mac m.mac) (validate_profile disk m.profile)

  unfoldable pub delete_prior :
      World → Text → Text → Option Profile → World × Result FleetError Bool
  delete_prior w canon if_match none = (w, ok false)
  delete_prior w canon if_match (some prior) =
      let new = delete canon w.fleet.machines in
      let saved =
        settle w.fleet new (insert canon prior new) true
          (save encode fault (with_machines w.fleet new) w.file) in
      if not (is_empty if_match) && not (text_eq (profile_etag digest canon prior) if_match)
      then (w, err precondition_failed)
      else saved

  unfoldable pub delete_entry : World → Text → Option Text → World × Result FleetError Bool
  delete_entry w if_match none = (w, err invalid_mac)
  delete_entry w if_match (some canon) =
      delete_prior w canon if_match (lookup canon w.fleet.machines)

  -- `DeleteAndSave`. The source also returns `existed` beside a failure of the precondition or the
  -- save, where it is always true.
  unfoldable pub delete_and_save : World → Text → Text → World × Result FleetError Bool
  delete_and_save w mac if_match = delete_entry w if_match (canonical_mac mac)
