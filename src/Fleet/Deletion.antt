-- ===== src/Fleet/Deletion.antt =====
-- internal/fleet/txn.go: what a deletion that succeeds has done.
use pxe_beacon.Base.{
  ◌≡◌, refl, sym, subst, ◌∙◌, Bool, true, false, not, ◌&&◌, Option, none, some, arith, inl, inr,
  ◌⊎◌, if◌then◌else◌, Bool-cases, Option-cases, is_some, is_empty, ok, Text, text_eq, text_eq_iff,
  lookup, lookup-delete,
}
use pxe_beacon.Mac.{canonical_mac}
use pxe_beacon.Fleet.{Profile, ConfigFile, Disk}
use pxe_beacon.Fleet.Saving.{Fault}
use pxe_beacon.Fleet.Txn.{World, profile_etag, delete_prior, delete_entry, delete_and_save}
use pxe_beacon.Fleet.Atomic.{save_ok, settle_ok}
use pxe_beacon.Fleet.Precondition.{IsSaved}

module _ (digest : Text → Text) (encode : ConfigFile → Option Text) (disk : Disk) (fault : Fault)
    (w : World) where
  -- The world after a deletion at the address `c`.
  abbrev Deleted : Text → World → Type 0
  Deleted c w' =
      (j : Text)
      → lookup j w'.fleet.machines ≡ (if text_eq c j then none else lookup j w.fleet.machines)

  absent-Deleted : (c : Text) → lookup c w.fleet.machines ≡ none → Deleted c w
  absent-Deleted c h j = elim (Bool-cases (text_eq c j)) [
    | inl e ↦ rw (e, ← (text_eq_iff c j).0 e) h
    | inr e ↦ rw e
  ]

  delete_prior_ok :
      (c if_match : Text) (o : Option Profile) (existed : Bool)
      → lookup c w.fleet.machines ≡ o
      → (delete_prior digest encode disk fault w c if_match o).1 ≡ ok existed
      → (existed ≡ is_some o)
        × Deleted c (delete_prior digest encode disk fault w c if_match o).0
        × ((is_some o ≡ false)
            ⊎ IsSaved encode (delete_prior digest encode disk fault w c if_match o).0)
  unfolding delete_prior
  delete_prior_ok c if_match none existed found h = (ground arith, absent-Deleted c found, inl refl)
  delete_prior_ok c if_match (some prior) existed found h =
      elim (Bool-cases
        (not (is_empty if_match) && not (text_eq (profile_etag digest c prior) if_match))) [
          | inl e ↦ absurd (ground arith)
          | inr e ↦
              let (fine, same, after) = settle_ok w _ _ true _ existed (rw e at h) in
              let (text, encoded, written) = save_ok encode fault _ w.file fine in
              rw e (
                sym same,
                subst (Deleted c) (sym after) (λ j. lookup-delete c j w.fleet.machines),
                inr (subst (IsSaved encode) (sym after) (text, encoded, written)),
              )
        ]

module _ (digest : Text → Text) (encode : ConfigFile → Option Text) (disk : Disk) (fault : Fault)
    (w : World) where
  delete_refused :
      (if_match : Text) (existed : Bool)
      → (delete_entry digest encode disk fault w if_match none).1 ≡ ok existed
      → ⊥
  unfolding delete_entry
  delete_refused if_match existed h = cc

  delete_known :
      (c if_match : Text) (existed : Bool)
      → (delete_entry digest encode disk fault w if_match (some c)).1 ≡ ok existed
      → (existed ≡ is_some (lookup c w.fleet.machines))
        × Deleted digest encode disk fault w c
            (delete_entry digest encode disk fault w if_match (some c)).0
        × ((existed ≡ false)
            ⊎ IsSaved encode (delete_entry digest encode disk fault w if_match (some c)).0)
  unfolding delete_entry
  delete_known c if_match existed h =
      let (was, gone, saved) =
        delete_prior_ok digest encode disk fault w c if_match _ existed refl h in
      (was, gone, elim saved [ inl none_there ↦ inl (was ∙ none_there) | inr kept ↦ inr kept ])

-- A deletion that succeeds leaves no machine at the address and all others as they were. It says
-- whether there was one, and if there was, the file holds the fleet without it.
pub delete_and_save_ok :
    (digest : Text → Text) (encode : ConfigFile → Option Text) (disk : Disk) (fault : Fault)
    (w : World) (mac if_match : Text) (existed : Bool)
    → (delete_and_save digest encode disk fault w mac if_match).1 ≡ ok existed
    → (c : Text) × (canonical_mac mac ≡ some c)
      × (existed ≡ is_some (lookup c w.fleet.machines))
      × ((j : Text)
          → lookup j (delete_and_save digest encode disk fault w mac if_match).0.fleet.machines
            ≡ (if text_eq c j then none else lookup j w.fleet.machines))
      × ((existed ≡ false)
          ⊎ IsSaved encode (delete_and_save digest encode disk fault w mac if_match).0)
unfolding delete_and_save
delete_and_save_ok digest encode disk fault w mac if_match existed h =
    elim (Option-cases (canonical_mac mac)) [
      | inl bad ↦ absurd (delete_refused digest encode disk fault w if_match existed (rw bad at h))
      | inr (c, known) ↦
          let (was, gone, saved) =
            delete_known digest encode disk fault w c if_match existed (rw known at h) in
          rw known (c, refl, was, gone, saved)
    ]
