-- ===== src/Fleet/Loaded.antt =====
-- What reload of internal/fleet/fleet.go leaves in memory.
use pxe_beacon.Base.{
  ◌≡◌, refl, sym, subst, ◌∙◌, true, not, Option, none, some, List, [], ◌∷◌, arith, inl, inr, ◌⊎◌,
  if◌then◌else◌, Bool-cases, Option-cases, is_some, Result-cases, Result, ok, err, Text, text_eq,
  text_eq_iff, Map, lookup, insert, lookup-insert, IsUnique, AllKeys, insert-IsUnique,
  insert-AllKeys, is_empty,
}
use pxe_beacon.Mac.{canonical_mac}
use pxe_beacon.Mac.Canonical.{IsCanonical, canonical_mac-IsCanonical, names, spells}
use pxe_beacon.Fleet.{
  Profile, Entry, ConfigFile, Fleet, FleetError, duplicate_mac, bad_boot, Disk, valid_boot_target,
}
use pxe_beacon.Fleet.Validate.{validate_profile}
use pxe_beacon.Fleet.Loading.{
  machine_profile, default_profile, boot_or_menu, ◌>>=◌, ◌>>◌, refuse_if, refuse, load_machine,
  load_machines, load_config, load, reload, replaced,
}
use pxe_beacon.Fleet.Lookups.{first_some, first_some-none}

-- What `load_machine` has checked when it succeeds.
infixl 5 ◌>>=?◌
abbrev pub ◌>>=?◌ {ℓ κ} : {A : Type ℓ} {B : Type κ} → Option A → (A → Option B) → Option B
none >>=? f = none
some a >>=? f = f a

record IsLoaded (disk : Disk) (base : Text) (machines : Map Profile) (mac : Text) (m : Entry)
    (canon : Text) (after : Map Profile) : Type 0 where
  known : canonical_mac mac ≡ some canon
  fresh : lookup canon machines ≡ none
  boot : valid_boot_target (boot_or_menu m.boot) ≡ true
  valid : validate_profile disk (machine_profile base m) ≡ none
  written : after ≡ insert canon (machine_profile base m) machines

load_canonical :
    (disk : Disk) (base : Text) (machines after : Map Profile) (m : Entry) (canon : Text)
    → (do
      refuse_if (is_some (lookup canon machines)) (duplicate_mac canon)
      refuse_if (not (valid_boot_target (boot_or_menu m.boot))) (bad_boot (boot_or_menu m.boot))
      refuse (validate_profile disk (machine_profile base m))
      ok (insert canon (machine_profile base m) machines))
      ≡ ok after
    → (lookup canon machines ≡ none)
      × (valid_boot_target (boot_or_menu m.boot) ≡ true)
      × (validate_profile disk (machine_profile base m) ≡ none)
      × (after ≡ insert canon (machine_profile base m) machines)
load_canonical disk base machines after m canon h = ground arith

load_machine-IsLoaded :
    (disk : Disk) (base : Text) (machines after : Map Profile) (mac : Text) (m : Entry)
    → load_machine disk base machines (mac, m) ≡ ok after
    → (canon : Text) × IsLoaded disk base machines mac m canon after
unfolding load_machine
load_machine-IsLoaded disk base machines after mac m h = elim (Option-cases (canonical_mac mac)) [
  | inl bad ↦ absurd (ground arith)
  | inr (canon, good) ↦
      let (a, b, c, d) = load_canonical disk base machines after m canon (rw good at h) in
      (canon, record { known = good; fresh = a; boot = b; valid = c; written = d })
]

-- The entry of the file that spells the address `c`, as a profile.
unfoldable pub entry_for : Text → Text → List (Text × Entry) → Option Profile
entry_for base c [] = none
entry_for base c ((mac, m) ∷ ms) =
    if spells mac c then some (machine_profile base m) else entry_for base c ms

abbrev pub IsChecked : Disk → Profile → Type 0
IsChecked disk p = (valid_boot_target p.boot ≡ true) × (validate_profile disk p ≡ none)

-- What holds of the map as the loop fills it.
record IsSound (disk : Disk) (machines : Map Profile) : Type 0 where
  unique : IsUnique machines
  canonical : AllKeys IsCanonical machines
  checked : (c : Text) (p : Profile) → lookup c machines ≡ some p → IsChecked disk p

insert-IsChecked :
    (disk : Disk) (machines : Map Profile) (k : Text) (q : Profile)
    → IsChecked disk q
    → ((c : Text) (p : Profile) → lookup c machines ≡ some p → IsChecked disk p)
    → (c : Text) (p : Profile) → lookup c (insert k q machines) ≡ some p
    → IsChecked disk p
insert-IsChecked disk machines k q good old c p h = elim (Bool-cases (text_eq k c)) [
  | inl e ↦
      let same : q ≡ p = ground (arith, lookup-insert k c q machines) in
      subst (IsChecked disk) same good
  | inr e ↦ old c p (ground (arith, lookup-insert k c q machines))
]

step-IsSound :
    (disk : Disk) (base : Text) (machines after : Map Profile) (mac : Text) (m : Entry)
    (canon : Text)
    → IsLoaded disk base machines mac m canon after
    → IsSound disk machines
    → IsSound disk after
unfolding machine_profile
step-IsSound disk base machines after mac m canon l s = rw l.written (record {
  unique = insert-IsUnique canon _ machines s.unique;
  canonical =
      insert-AllKeys IsCanonical canon _ machines (canonical_mac-IsCanonical mac canon l.known)
        s.canonical;
  checked =
      insert-IsChecked disk machines canon (machine_profile base m) (l.boot, l.valid) s.checked;
})

step-lookup :
    (disk : Disk) (base : Text) (machines after : Map Profile) (mac : Text) (m : Entry)
    (canon c : Text) (rest : Option Profile)
    → IsLoaded disk base machines mac m canon after
    → first_some (lookup c after) rest
      ≡ first_some
          (lookup c machines)
          (if spells mac c then some (machine_profile base m) else rest)
unfolding spells names
step-lookup disk base machines after mac m canon c rest l = elim (Bool-cases (text_eq canon c)) [
  | inl e ↦
      let gone : lookup c machines ≡ none =
        subst (λ i. lookup i machines ≡ none) ((text_eq_iff canon c).0 e) l.fresh in
      rw (l.known, names, l.written, lookup-insert, e, gone)
  | inr e ↦ rw (l.known, names, l.written, lookup-insert, e)
]

bind-eq-ok {ℓ κ} :
    {A : Type ℓ} {B : Type κ} (first : Result FleetError A) (after : A → Result FleetError B)
    {b : B}
    → (first >>= after) ≡ ok b
    → (a : A) × (first ≡ ok a) × (after a ≡ ok b)
bind-eq-ok (ok a) after done = (a, refl, done)
bind-eq-ok (err e) after done = cc

load_machines-IsSound :
    (disk : Disk) (base : Text) (machines : Map Profile) (ms : List (Text × Entry))
    (g : Map Profile)
    → load_machines disk base machines ms ≡ ok g
    → IsSound disk machines
    → IsSound disk g
      × ((c : Text) → lookup c g ≡ first_some (lookup c machines) (entry_for base c ms))
unfolding load_machines entry_for
load_machines-IsSound disk base machines [] g h s =
    let same : machines ≡ g = ground arith in
    subst (λ x. IsSound disk x × ((c : Text) → lookup c x ≡ first_some (lookup c machines) none))
      same (s, λ c. sym (first_some-none (lookup c machines)))
load_machines-IsSound disk base machines ((mac, m) ∷ ms) g h s =
    let (after, one, rest) = bind-eq-ok _ _ h in
    let (canon, l) = load_machine-IsLoaded disk base machines after mac m one in
    let (sound, found) =
      load_machines-IsSound disk base after ms g rest
        (step-IsSound disk base machines after mac m canon l s) in
    (sound, λ c. found c ∙ step-lookup disk base machines after mac m canon c _ l)

load_config-parts :
    (disk : Disk) (base : Text) (f g : Fleet) (cfg : ConfigFile)
    → load_config disk base f cfg ≡ ok g
    → (load_machines disk base [] cfg.machines ≡ ok g.machines)
      × (g.path ≡ f.path)
      × (g.base_dir ≡ base)
      × (g.defaults ≡ default_profile base cfg.defaults)
      × IsChecked disk (default_profile base cfg.defaults)
unfolding load_config
load_config-parts disk base f g cfg h =
    elim (Result-cases (load_machines disk base [] cfg.machines)) [
      | inl (ms, e) ↦ ground arith
      | inr (x, e) ↦ absurd (ground arith)
    ]

-- The text of the file, decoded.
abbrev pub on_disk : (Text → Option ConfigFile) → Disk → Text → Option ConfigFile
on_disk decode disk path = disk.read path >>=? decode

load-parts :
    (decode : Text → Option ConfigFile) (dir_of : Text → Text) (disk : Disk) (f g : Fleet)
    → load decode dir_of disk f ≡ ok g
    → (cfg : ConfigFile) × (on_disk decode disk f.path ≡ some cfg)
      × (load_config disk (dir_of f.path) f cfg ≡ ok g)
unfolding load
load-parts decode dir_of disk f g h = elim (Option-cases (disk.read f.path)) [
  | inl e ↦ absurd (ground arith)
  | inr (raw, e) ↦ elim (Option-cases (decode raw)) [
    | inl bad ↦ absurd (ground arith)
    | inr (cfg, good) ↦ (cfg, rw (e) good, rw (e, good) at h)
  ]
]

empty-IsSound : (disk : Disk) → IsSound disk []
unfolding lookup
empty-IsSound disk = record {
  unique = tt;
  canonical = tt;
  checked = λ c p h. absurd (ground arith);
}

none_first : (c : Text) (o : Option Profile) → first_some (lookup c []) o ≡ o
unfolding lookup
none_first c o = refl

-- A fleet whose keys are distinct canonical addresses.
pub record IsValid (f : Fleet) : Type 0 where
  pub unique : IsUnique f.machines
  pub canonical : AllKeys IsCanonical f.machines

-- `P` of the value, if there is one.
abbrev pub Each {ℓ} : {A : Type ℓ} → (A → Type 0) → Option A → Type 0
Each P none = Unit {0}
Each P (some a) = P a

Each-found {ℓ} :
    {A : Type ℓ} (P : A → Type 0) (o : Option A) → ((a : A) → o ≡ some a → P a) → Each P o
Each-found P none h = tt
Each-found P (some a) h = h a refl

-- A fleet that is loaded holds, for each address, the profile of the entry of the file that spells
-- it and no other; each profile, the defaults included, has a recognised boot target and passes the
-- validation.
pub load_sound :
    (decode : Text → Option ConfigFile) (dir_of : Text → Text) (disk : Disk) (f g : Fleet)
    → load decode dir_of disk f ≡ ok g
    → (cfg : ConfigFile) × (on_disk decode disk f.path ≡ some cfg)
      × ((c : Text) → lookup c g.machines ≡ entry_for (dir_of f.path) c cfg.machines)
      × (g.defaults ≡ default_profile (dir_of f.path) cfg.defaults)
      × IsChecked disk g.defaults
      × ((c : Text) → Each (IsChecked disk) (lookup c g.machines))
      × IsValid g
load_sound decode dir_of disk f g h =
    let (cfg, read, loaded) = load-parts decode dir_of disk f g h in
    let (machines, same_path, base, defaults, good) =
      load_config-parts disk (dir_of f.path) f g cfg loaded in
    let (sound, found) =
      load_machines-IsSound disk (dir_of f.path) [] cfg.machines g.machines machines
        (empty-IsSound disk) in
    (
      cfg,
      read,
      λ c. found c ∙ none_first c (entry_for (dir_of f.path) c cfg.machines),
      defaults,
      subst (IsChecked disk) (sym defaults) good,
      λ c. Each-found (IsChecked disk) (lookup c g.machines) (sound.checked c),
      record { unique = sound.unique; canonical = sound.canonical },
    )

replaced-IsValid :
    (decode : Text → Option ConfigFile) (dir_of : Text → Text) (disk : Disk) (f : Fleet)
    → IsValid f
    → (r : Result FleetError Fleet) → load decode dir_of disk f ≡ r
    → IsValid (replaced f r).0 × (((replaced f r).0 ≡ f) ⊎ ((replaced f r).1 ≡ none))
replaced-IsValid decode dir_of disk f v (ok g) h =
    let (cfg, read, found, same, good, all, valid) = load_sound decode dir_of disk f g h in
    (valid, inr refl)
replaced-IsValid decode dir_of disk f v (err e) h = (v, inl refl)

-- A reload that fails leaves the fleet as it was, and one that succeeds leaves a valid fleet.
pub reload-IsValid :
    (decode : Text → Option ConfigFile) (dir_of : Text → Text) (disk : Disk) (f : Fleet)
    → IsValid f
    → IsValid (reload decode dir_of disk f).0
      × (((reload decode dir_of disk f).0 ≡ f) ⊎ ((reload decode dir_of disk f).1 ≡ none))
unfolding reload
reload-IsValid decode dir_of disk f v = elim (Bool-cases (is_empty f.path)) [
  | inl e ↦ rw e (v, inl refl)
  | inr e ↦ rw e (replaced-IsValid decode dir_of disk f v (load decode dir_of disk f) refl)
]
