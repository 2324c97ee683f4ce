-- ===== src/Fleet/Atomic.antt =====
-- internal/fleet/txn.go: a transaction that returns an error has changed nothing.
use pxe_beacon.Base.{
  ◌≡◌, refl, sym, ap, not, ◌&&◌, Option, none, some, arith, inl, inr, Bool-cases, is_empty, Result,
  ok, err, Text, text_eq, text_eq_iff, Map, lookup, insert, delete, lookup-insert, lookup-delete,
  delete-insert,
}
use pxe_beacon.Mac.{canonical_mac}
use pxe_beacon.Fleet.{Profile, Machine, ConfigFile, Fleet, FleetError, Disk, SaveError}
use pxe_beacon.Fleet.Validate.{validate_profile}
use pxe_beacon.Fleet.Saving.{
  Fault, no_fault, create_fault, write_fault, close_fault, rename_fault, config_of, write_file,
  write_encoded, save,
}
use pxe_beacon.Fleet.Txn.{
  World, with_machines, settle, profile_etag, create_new, create_valid, create_and_save,
  update_prior, update_valid, update_and_save, delete_prior, delete_entry, delete_and_save,
}

-- The same machines with the same profiles, and the same settings.
pub record SameFleet (f g : Fleet) : Type 0 where
  pub machines : (c : Text) → lookup c g.machines ≡ lookup c f.machines
  pub path : g.path ≡ f.path
  pub base_dir : g.base_dir ≡ f.base_dir
  pub defaults : g.defaults ≡ f.defaults

abbrev pub Unchanged : World → World → Type 0
Unchanged w w' = SameFleet w.fleet w'.fleet × (w'.file ≡ w.file)

Unchanged-refl : (w : World) → Unchanged w w
Unchanged-refl w =
    (record { machines = λ c. refl; path = refl; base_dir = refl; defaults = refl }, refl)

-- Whatever step of the write fails, the file stays as it was.
write_encoded_err :
    (fault : Fault) (text : Option Text) (file : Option Text) (e : SaveError)
    → (write_encoded fault text file).1 ≡ some e
    → (write_encoded fault text file).0 ≡ file
unfolding write_encoded write_file
write_encoded_err fault none file e h = refl
write_encoded_err no_fault (some text) file e h = cc
write_encoded_err create_fault (some text) file e h = refl
write_encoded_err write_fault (some text) file e h = refl
write_encoded_err close_fault (some text) file e h = refl
write_encoded_err rename_fault (some text) file e h = refl

write_encoded_ok :
    (fault : Fault) (text : Option Text) (file : Option Text)
    → (write_encoded fault text file).1 ≡ none
    → (t : Text) × (text ≡ some t) × ((write_encoded fault text file).0 ≡ some t)
unfolding write_encoded write_file
write_encoded_ok fault none file h = cc
write_encoded_ok no_fault (some text) file h = (text, refl, refl)
write_encoded_ok create_fault (some text) file h = cc
write_encoded_ok write_fault (some text) file h = cc
write_encoded_ok close_fault (some text) file h = cc
write_encoded_ok rename_fault (some text) file h = cc

module _ (encode : ConfigFile → Option Text) (fault : Fault) (f : Fleet) (file : Option Text) where
  save_err :
      (e : SaveError) → (save encode fault f file).1 ≡ some e → (save encode fault f file).0 ≡ file
  unfolding save
  save_err e h = elim (Bool-cases (is_empty f.path)) [
    | inl p ↦ rw p
    | inr p ↦ rw p (write_encoded_err fault (encode (config_of f)) file e (rw p at h))
  ]

  -- A save without an error has written the encoding of the fleet.
  pub save_ok :
      (save encode fault f file).1 ≡ none
      → (t : Text) × (encode (config_of f) ≡ some t) × ((save encode fault f file).0 ≡ some t)
  unfolding save
  save_ok h = elim (Bool-cases (is_empty f.path)) [
    | inl p ↦ absurd (ground arith)
    | inr p ↦ rw p (write_encoded_ok fault (encode (config_of f)) file (rw p at h))
  ]

module _ {ℓ} {A : Type ℓ} (w : World) (new back : Map Profile) (a : A) where
  settle_err :
      (r : Option Text × Option SaveError)
      → ((e : SaveError) → r.1 ≡ some e → r.0 ≡ w.file)
      → ((c : Text) → lookup c back ≡ lookup c w.fleet.machines)
      → (x : FleetError) → (settle w.fleet new back a r).1 ≡ err x
      → Unchanged w (settle w.fleet new back a r).0
  unfolding settle
  settle_err (file, none) kept same x h = cc
  settle_err (file, some e) kept same x h =
      (record { machines = same; path = refl; base_dir = refl; defaults = refl }, kept e refl)

  pub settle_ok :
      (r : Option Text × Option SaveError) (b : A)
      → (settle w.fleet new back a r).1 ≡ ok b
      → (r.1 ≡ none)
        × (a ≡ b)
        × ((settle w.fleet new back a r).0
            ≡ record { fleet = with_machines w.fleet new; file = r.0 })
  unfolding settle
  settle_ok (file, none) b h = (refl, ground arith, refl)
  settle_ok (file, some e) b h = cc

-- The rollback of a change and of a deletion writes the old profile back.
put_back :
    (m : Map Profile) (c : Text) (p prior : Profile)
    → lookup c m ≡ some prior
    → (j : Text) → lookup j (insert c prior (insert c p m)) ≡ lookup j m
put_back m c p prior h j = elim (Bool-cases (text_eq c j)) [
  | inl e ↦ rw (lookup-insert, e, ← (text_eq_iff c j).0 e) (sym h)
  | inr e ↦ rw (lookup-insert, e, lookup-insert, e)
]

put_back_deleted :
    (m : Map Profile) (c : Text) (prior : Profile)
    → lookup c m ≡ some prior
    → (j : Text) → lookup j (insert c prior (delete c m)) ≡ lookup j m
put_back_deleted m c prior h j = elim (Bool-cases (text_eq c j)) [
  | inl e ↦ rw (lookup-insert, e, ← (text_eq_iff c j).0 e) (sym h)
  | inr e ↦ rw (lookup-insert, e, lookup-delete, e)
]

module _ (digest : Text → Text) (encode : ConfigFile → Option Text) (disk : Disk) (fault : Fault)
    (w : World) where
  create_new_err :
      (canon : Text) (p : Profile) (o : Option Profile) (x : FleetError)
      → lookup canon w.fleet.machines ≡ o
      → (create_new digest encode disk fault w canon p o).1 ≡ err x
      → Unchanged w (create_new digest encode disk fault w canon p o).0
  unfolding create_new
  create_new_err canon p (some prior) x found h = Unchanged-refl w
  create_new_err canon p none x found h =
      settle_err w _ _ _ _ (save_err encode fault _ w.file)
        (λ c. ap (lookup c) (delete-insert canon p w.fleet.machines found)) x h

  create_valid_err :
      (p : Profile) (o : Option Text) (v : Option FleetError) (x : FleetError)
      → (create_valid digest encode disk fault w p o v).1 ≡ err x
      → Unchanged w (create_valid digest encode disk fault w p o v).0
  unfolding create_valid
  create_valid_err p none v x h = Unchanged-refl w
  create_valid_err p (some canon) (some e) x h = Unchanged-refl w
  create_valid_err p (some canon) none x h = create_new_err canon p _ x refl h

  update_prior_err :
      (canon : Text) (p : Profile) (if_match : Text) (o : Option Profile) (x : FleetError)
      → lookup canon w.fleet.machines ≡ o
      → (update_prior digest encode disk fault w canon p if_match o).1 ≡ err x
      → Unchanged w (update_prior digest encode disk fault w canon p if_match o).0
  unfolding update_prior
  update_prior_err canon p if_match none x found h = Unchanged-refl w
  update_prior_err canon p if_match (some prior) x found h =
      elim (Bool-cases (text_eq (profile_etag digest canon prior) if_match)) [
        | inl e ↦ rw e (
            settle_err w _ _ _ _ (save_err encode fault _ w.file)
              (put_back w.fleet.machines canon p prior found) x (rw e at h))
        | inr e ↦ rw e (Unchanged-refl w)
      ]

  update_valid_err :
      (p : Profile) (if_match : Text) (o : Option Text) (v : Option FleetError) (x : FleetError)
      → (update_valid digest encode disk fault w p if_match o v).1 ≡ err x
      → Unchanged w (update_valid digest encode disk fault w p if_match o v).0
  unfolding update_valid
  update_valid_err p if_match none v x h = Unchanged-refl w
  update_valid_err p if_match (some canon) (some e) x h = Unchanged-refl w
  update_valid_err p if_match (some canon) none x h = elim (Bool-cases (is_empty if_match)) [
    | inl e ↦ rw e (Unchanged-refl w)
    | inr e ↦ rw e (update_prior_err canon p if_match _ x refl (rw e at h))
  ]

  delete_prior_err :
      (canon if_match : Text) (o : Option Profile) (x : FleetError)
      → lookup canon w.fleet.machines ≡ o
      → (delete_prior digest encode disk fault w canon if_match o).1 ≡ err x
      → Unchanged w (delete_prior digest encode disk fault w canon if_match o).0
  unfolding delete_prior
  delete_prior_err canon if_match none x found h = Unchanged-refl w
  delete_prior_err canon if_match (some prior) x found h =
      elim (Bool-cases
        (not (is_empty if_match) && not (text_eq (profile_etag digest canon prior) if_match))) [
          | inl e ↦ rw e (Unchanged-refl w)
          | inr e ↦ rw e (
              settle_err w _ _ _ _ (save_err encode fault _ w.file)
                (put_back_deleted w.fleet.machines canon prior found) x (rw e at h))
        ]

  delete_entry_err :
      (if_match : Text) (o : Option Text) (x : FleetError)
      → (delete_entry digest encode disk fault w if_match o).1 ≡ err x
      → Unchanged w (delete_entry digest encode disk fault w if_match o).0
  unfolding delete_entry
  delete_entry_err if_match none x h = Unchanged-refl w
  delete_entry_err if_match (some canon) x h = delete_prior_err canon if_match _ x refl h

-- A call of one of the three transactions.
pub data Change : Type 0 where
  create : Machine → Change
  update : Machine → Text → Change
  remove : Text → Text → Change

-- Whether the transaction fails, and the world that it leaves.
unfoldable pub failure_of {ℓ} :
    {A : Type ℓ} → World × Result FleetError A → World × Option FleetError
failure_of (w, ok a) = (w, none)
failure_of (w, err e) = (w, some e)

failure_Unchanged {ℓ} :
    {A : Type ℓ} (w : World) (r : World × Result FleetError A) (x : FleetError)
    → (r.1 ≡ err x → Unchanged w r.0)
    → (failure_of r).1 ≡ some x
    → Unchanged w (failure_of r).0
unfolding failure_of
failure_Unchanged w (w', ok a) x k h = cc
failure_Unchanged w (w', err e) x k h = k (ground arith)

module _ (digest : Text → Text) (encode : ConfigFile → Option Text) (disk : Disk) (fault : Fault)
    (w : World) where
  unfoldable pub attempt : Change → World × Option FleetError
  unfolding failure_of
  attempt (create m) = failure_of (create_and_save digest encode disk fault w m)
  attempt (update m if_match) = failure_of (update_and_save digest encode disk fault w m if_match)
  attempt (remove mac if_match) =
      failure_of (delete_and_save digest encode disk fault w mac if_match)

  -- Whatever makes a transaction fail, a refused check or any step of the save, it leaves every
  -- machine, the settings and the file as they were.
  pub attempt_err :
      (change : Change) (x : FleetError)
      → (attempt change).1 ≡ some x
      → Unchanged w (attempt change).0
  unfolding attempt create_and_save update_and_save delete_and_save
  attempt_err (create m) x h =
      failure_Unchanged w _ x
        (create_valid_err digest encode disk fault w m.profile (canonical_mac m.mac)
          (validate_profile disk m.profile) x)
        h
  attempt_err (update m if_match) x h =
      failure_Unchanged w _ x
        (update_valid_err digest encode disk fault w m.profile if_match (canonical_mac m.mac)
          (validate_profile disk m.profile) x)
        h
  attempt_err (remove mac if_match) x h =
      failure_Unchanged w _ x
        (delete_entry_err digest encode disk fault w if_match (canonical_mac mac) x) h
