-- ===== src/InstallLog/Retained.antt =====
-- internal/installlog/installlog.go against the whole output of a machine: what is retained is its
-- end.
use pxe_beacon.Base.{
  ℕ, zero, suc, ◌+◌, ◌-◌, ◌≤◌, ◌≡◌, refl, sym, ap, ◌∙◌, Option, none, some, List, [], ◌∷◌, ◌++◌,
  arith, ltb, ltb→ge, if◌then◌else◌, inl, inr, Bool-cases, Option-cases, length, drop,
  length-append, length-drop, Text, text_eq, text_eq_iff, Map, lookup, insert, lookup-insert,
  retain, lookup-retain, Bool,
}
use pxe_beacon.Mac.{canonical_mac}
use pxe_beacon.Mac.Canonical.{names, spells}
use mathlib.Core.Path.{◌≡⟨◌⟩◌, ◌∎}
use pxe_beacon.InstallLog.{
  or_nil, max_per_mac, Store, empty, log_of, trim, append, append_entry, get, get_entry, sweep,
  retain_only,
}

drop-nil {ℓ} : {A : Type ℓ} (n : ℕ) → drop {A = A} n [] ≡ []
drop-nil zero = refl
drop-nil (suc n) = refl

drop-drop {ℓ} : {A : Type ℓ} (m n : ℕ) (xs : List A) → drop m (drop n xs) ≡ drop (m + n) xs
drop-drop m zero xs = ap (λ k. drop k xs) (omega arith)
drop-drop m (suc n) [] = drop-nil m ∙ sym (drop-nil (m + suc n))
drop-drop m (suc n) (x ∷ xs) =
    let e : suc (m + n) ≡ m + suc n = omega arith in drop-drop m n xs ∙ ap (λ k. drop k (x ∷ xs)) e

drop-append {ℓ} :
    {A : Type ℓ} (n : ℕ) (xs ys : List A) → n ≤ length xs → drop n xs ++ ys ≡ drop n (xs ++ ys)
drop-append zero xs ys h = refl
drop-append (suc n) [] ys h = absurd (omega arith)
drop-append (suc n) (x ∷ xs) ys h = drop-append n xs ys (omega arith)

none_over : (cap n : ℕ) → n ≤ cap → 0 ≡ n - cap
none_over cap n h = omega arith

-- `trim` always drops what is over the cap.
trim-drop : (cap : ℕ) (xs : Text) → trim cap xs ≡ drop (length xs - cap) xs
unfolding trim
trim-drop cap xs = elim (Bool-cases (ltb cap (length xs))) [
  | inl h ↦ rw h
  | inr h ↦ rw h (ap (λ k. drop k xs) (none_over cap (length xs) (ltb→ge _ _ h)))
]

length-trim-le : (cap : ℕ) (xs : Text) → length (trim cap xs) ≤ cap
length-trim-le cap xs = rw (trim-drop cap xs, length-drop) (omega arith)

left_over :
    (cap : ℕ) (xs ys : Text)
    → (length (drop (length xs - cap) (xs ++ ys)) - cap) + (length xs - cap)
      ≡ length (xs ++ ys) - cap
left_over cap xs ys = omega (arith, length-drop (length xs - cap) (xs ++ ys), length-append xs ys)

-- Trimming as output arrives is trimming once at the end.
trim-append : (cap : ℕ) (xs ys : Text) → trim cap (trim cap xs ++ ys) ≡ trim cap (xs ++ ys)
trim-append cap xs ys =
    let a = length xs - cap in
    trim cap (trim cap xs ++ ys)
    ≡⟨ ap (λ l. trim cap (l ++ ys)) (trim-drop cap xs) ⟩ trim cap (drop a xs ++ ys)
    ≡⟨ ap (trim cap) (drop-append a xs ys (omega arith)) ⟩ trim cap (drop a (xs ++ ys))
    ≡⟨ trim-drop cap (drop a (xs ++ ys)) ⟩
      drop (length (drop a (xs ++ ys)) - cap) (drop a (xs ++ ys))
    ≡⟨ drop-drop (length (drop a (xs ++ ys)) - cap) a (xs ++ ys) ⟩
      drop ((length (drop a (xs ++ ys)) - cap) + a) (xs ++ ys)
    ≡⟨ ap (λ k. drop k (xs ++ ys)) (left_over cap xs ys) ⟩ drop (length (xs ++ ys) - cap) (xs ++ ys)
    ≡⟨ sym (trim-drop cap (xs ++ ys)) ⟩ trim cap (xs ++ ys) ∎

-- One call that changes the store.
pub data Call : Type 0 where
  appended : Text → Text → Call
  reloaded : (Text → Bool) → Call

unfoldable pub step : Store → Call → Store
step s (appended mac b) = append s mac b
step s (reloaded known) = (retain_only s known).0

unfoldable pub run : Store → List Call → Store
run s [] = s
run s (call ∷ calls) = run (step s call) calls

-- All that the machine with the canonical address `c` has posted since it was last dropped.
unfoldable pub output : Text → Text → List Call → Text
output c before [] = before
output c before (appended mac b ∷ calls) =
    output c (if spells mac c then before ++ b else before) calls
output c before (reloaded known ∷ calls) = output c (if known c then before else []) calls

log_of-insert :
    (m : Map Text) (d c b : Text)
    → log_of (insert d b m) c ≡ (if text_eq d c then b else log_of m c)
unfolding log_of or_nil
log_of-insert m d c b = ground (arith, lookup-insert d c b m)

log_of-append_entry :
    (s : Store) (b : Text) (o : Option Text) (c before : Text)
    → log_of s.entries c ≡ trim max_per_mac before
    → log_of (append_entry s b o).entries c
      ≡ trim max_per_mac (if names o c then before ++ b else before)
unfolding append_entry names
log_of-append_entry s b none c before h = h
log_of-append_entry s b (some d) c before h = elim (Bool-cases (text_eq d c)) [
  | inl e ↦
      let same = (text_eq_iff d c).0 e in
      rw (log_of-insert, e, same, h) (trim-append max_per_mac before b)
  | inr e ↦ rw (log_of-insert, e) h
]

sweep-retain : (known : Text → Bool) (m : Map Text) → (sweep known m).0 ≡ retain known m
unfolding sweep retain
sweep-retain known [] = refl
sweep-retain known ((k, e) ∷ m) = ground (arith, sweep-retain known m)

trim-nil : trim max_per_mac [] ≡ []
unfolding trim
trim-nil = refl

log_of-retain :
    (known : Text → Bool) (m : Map Text) (c before : Text)
    → log_of m c ≡ trim max_per_mac before
    → log_of (retain known m) c ≡ trim max_per_mac (if known c then before else [])
unfolding log_of or_nil
log_of-retain known m c before h = elim (Bool-cases (known c)) [
  | inl e ↦ rw (lookup-retain known c m, e) h
  | inr e ↦ rw (lookup-retain known c m, e) (sym trim-nil)
]

log_of-run :
    (s : Store) (calls : List Call) (c before : Text)
    → log_of s.entries c ≡ trim max_per_mac before
    → log_of (run s calls).entries c ≡ trim max_per_mac (output c before calls)
unfolding run output step append spells retain_only
log_of-run s [] c before h = h
log_of-run s (appended mac b ∷ calls) c before h =
    log_of-run (append s mac b) calls c _ (log_of-append_entry s b (canonical_mac mac) c before h)
log_of-run s (reloaded known ∷ calls) c before h =
    log_of-run (retain_only s known).0 calls c _
      (rw (sweep-retain known s.entries) (log_of-retain known s.entries c before h))

-- After any calls on a new store, what a machine's log holds is the last 65536 bytes of all that
-- the machine posted since it was last dropped, or all of it if it is shorter.
pub get-run :
    (calls : List Call) (mac c : Text)
    → canonical_mac mac ≡ some c
    → get (run empty calls) mac
      ≡ drop (length (output c [] calls) - max_per_mac) (output c [] calls)
unfolding get
get-run calls mac c e =
    rw (e, get_entry)
      (log_of-run empty calls c [] (unfold empty log_of or_nil lookup trim in refl)
        ∙ trim-drop max_per_mac (output c [] calls))

-- No log is longer than 65536 bytes.
pub length-get-le :
    (calls : List Call) (mac : Text) → length (get (run empty calls) mac) ≤ max_per_mac
unfolding get
length-get-le calls mac = elim (Option-cases (canonical_mac mac)) [
  | inl e ↦ rw (e, get_entry) (omega arith)
  | inr (c, e) ↦ rw (get-run calls mac c e, length-drop) (omega arith)
]

-- A machine that `known` accepts keeps its log; one that it rejects has none.
pub get-retain_only :
    (s : Store) (known : Text → Bool) (mac c : Text)
    → canonical_mac mac ≡ some c
    → get (retain_only s known).0 mac ≡ (if known c then get s mac else [])
unfolding get retain_only log_of or_nil
get-retain_only s known mac c e =
    rw (e, get_entry)
      (ground (arith, sweep-retain known s.entries, lookup-retain known c s.entries))
