-- ===== src/Pending/Retention.antt =====
-- RetainOnly of internal/pending/pending.go: what stays, what is dropped, and how it is counted.
use pxe_beacon.Base.{
  ℕ, ◌+◌, ◌≡◌, refl, Bool, false, none, some, [], ◌∷◌, arith, if◌then◌else◌, length, All, inl, inr,
  Bool-cases, Text, Map, retain, lookup-retain,
}
use pxe_beacon.Mac.{canonical_mac}
use pxe_beacon.Pending.{Entry, Store, entry_of, status, size, sweep, retain_only}

pub sweep-retain : (known : Text → Bool) (m : Map Entry) → (sweep known m).0 ≡ retain known m
unfolding sweep retain
sweep-retain known [] = refl
sweep-retain known ((k, e) ∷ m) = ground (arith, sweep-retain known m)

sweep_counts :
    (known : Text → Bool) (m : Map Entry)
    → ((sweep known m).1 ≡ length (sweep known m).2)
      × (length (sweep known m).0 + (sweep known m).1 ≡ length m)
unfolding sweep
sweep_counts known [] = (refl, omega arith)
sweep_counts known ((k, e) ∷ m) = ground (arith, sweep_counts known m)

sweep_dropped : (known : Text → Bool) (m : Map Entry) → All (λ k. known k ≡ false) (sweep known m).2
unfolding sweep
sweep_dropped known [] = tt
sweep_dropped known ((k, e) ∷ m) = elim (Bool-cases (known k)) [
  | inl h ↦ rw h (sweep_dropped known m)
  | inr h ↦ rw h (h, sweep_dropped known m)
]

-- The number returned is the number of keys returned, each of which `known` rejects, and with the
-- entries that stay it makes up the entries that were there.
pub retain_only_counts :
    (s : Store) (known : Text → Bool)
    → ((retain_only s known).1 ≡ length (retain_only s known).2)
      × (size (retain_only s known).0 + (retain_only s known).1 ≡ size s)
      × All (λ k. known k ≡ false) (retain_only s known).2
unfolding retain_only size
retain_only_counts s known =
    let (same, total) = sweep_counts known s.entries in (same, total, sweep_dropped known s.entries)

-- A machine that `known` accepts keeps its status at every time; one that it rejects has none.
pub status-retain_only :
    (s : Store) (known : Text → Bool) (now : ℕ) (mac c : Text)
    → canonical_mac mac ≡ some c
    → status (retain_only s known).0 now mac ≡ (if known c then status s now mac else none)
unfolding status retain_only
status-retain_only s known now mac c e =
    rw (e, entry_of) (ground (arith, sweep-retain known s.entries, lookup-retain known c s.entries))
