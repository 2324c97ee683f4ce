-- ===== src/Listener/Hints.antt =====
-- internal/proxydhcp/listener.go: when the goroutine of an offer gives its hint.
use pxe_beacon.Base.{
  ℕ, ◌==◌, ==_iff, ◌≡◌, refl, sym, ap, ◌∙◌, inl, inr, arith, Bool, true, false, not, ◌&&◌, ◌||◌,
  Option, none, some, List, [], ◌∷◌, if◌then◌else◌, Bool-cases, Option-cases, All, is_empty,
  is_some, is_positive, ℤ, Text, text_eq, text_eq_iff, text_eq_refl, Map, lookup, lookup-insert,
  lookup-delete, AllKeys, insert-AllKeys, delete-AllKeys, lookup-AllKeys,
}
use pxe_beacon.Listener.{note_served, note_pending, is_sent_at, wake}

-- What happens to the offers that wait: an offer is sent, a server has served something, and the
-- goroutine of an offer wakes.
pub data Step : Type 0 where
  offered : ℕ → Text → Step
  served : Text → Step
  woken : Text → ℕ → Step

module _ (timeout : ℤ) where
  unfoldable pub step : Step → Map ℕ → Map ℕ
  unfolding note_pending note_served wake
  step (offered now mac) pending = note_pending timeout now mac pending
  step (served tag) pending = note_served pending tag
  step (woken mac sent) pending = (wake mac sent pending).0

  unfoldable pub run : List Step → Map ℕ → Map ℕ
  unfolding step
  run [] pending = pending
  run (e ∷ es) pending = run es (step e pending)

unfoldable pub has_colon : Text → Bool
has_colon [] = false
has_colon (b ∷ t) = b == b':' || has_colon t

-- Offers go to machines, whose addresses are printed with colons; the servers pass tags without.
abbrev pub IsUsual : Step → Type 0
IsUsual (offered now mac) = has_colon mac ≡ true
IsUsual (served tag) = has_colon tag ≡ false
IsUsual (woken mac sent) = Unit

-- The step is not another offer to `mac` at the time `sent`.
abbrev pub IsOther : Text → ℕ → Step → Type 0
IsOther mac sent (offered now m) = (text_eq m mac && now == sent) ≡ false
IsOther mac sent _ = Unit

-- The step leaves the offer that was sent to `mac` at the time `sent` waiting: no later offer to
-- `mac`, nothing served, and not the waking of this offer itself.
unfoldable pub leaves : Text → ℕ → Step → Bool
leaves mac sent (offered now m) = not (text_eq m mac)
leaves mac sent (served tag) = is_empty tag
leaves mac sent (woken m at) = not (text_eq m mac && at == sent)

unfoldable pub all_leave : Text → ℕ → List Step → Bool
unfolding leaves
all_leave mac sent [] = true
all_leave mac sent (e ∷ es) = leaves mac sent e && all_leave mac sent es

abbrev HasColon : Text → Type 0
HasColon t = has_colon t ≡ true

colon-nonempty : (t : Text) → HasColon t → is_empty t ≡ false
unfolding has_colon
colon-nonempty [] h = absurd (ground arith)
colon-nonempty (b ∷ t) h = refl

-- A tag without a colon names no machine that waits.
opaque_tag :
    (tag : Text) (pending : Map ℕ)
    → AllKeys HasColon pending
    → has_colon tag ≡ false
    → is_some (lookup tag pending) ≡ false
opaque_tag tag pending keys h = elim (Option-cases (lookup tag pending)) [
  | inl e ↦ rw e refl
  | inr (at, e) ↦ absurd (ground (arith, lookup-AllKeys HasColon tag pending at e keys))
]

is_sent_at_only :
    (o : Option ℕ) (a b : ℕ) → is_sent_at a o ≡ true → (is_sent_at b o && not (a == b)) ≡ false
is_sent_at_only none a b h = absurd (ground arith)
is_sent_at_only (some t) a b h = ground (arith, ==_iff t a, ==_iff t b, ==_iff a b)

is_sent_at_other :
    (o : Option ℕ) (a b : ℕ)
    → is_sent_at a o ≡ false
    → (is_sent_at b o && not (a == b)) ≡ is_sent_at b o
is_sent_at_other none a b h = refl
is_sent_at_other (some t) a b h = ground (arith, ==_iff t a, ==_iff t b, ==_iff a b)

if-AllKeys :
    (b : Bool) (x y : Map ℕ)
    → AllKeys HasColon x
    → AllKeys HasColon y
    → AllKeys HasColon (if b then x else y)
if-AllKeys true x y hx hy = hx
if-AllKeys false x y hx hy = hy

module _ (timeout : ℤ) (mac : Text) (sent : ℕ) where
  -- Whether the offer to `mac` at the time `sent` waits.
  abbrev waits : Map ℕ → Bool
  waits pending = is_sent_at sent (lookup mac pending)

  step-AllKeys :
      (e : Step) (pending : Map ℕ)
      → IsUsual e
      → AllKeys HasColon pending
      → AllKeys HasColon (step timeout e pending)
  unfolding step note_pending note_served wake
  step-AllKeys (offered now m) pending u keys =
      if-AllKeys (is_positive timeout && not (is_empty m)) _ _
        (insert-AllKeys HasColon m now pending u keys) keys
  step-AllKeys (served tag) pending u keys =
      if-AllKeys (is_empty tag) _ _ keys (
        if-AllKeys (is_some (lookup tag pending)) _ _ (delete-AllKeys HasColon tag pending keys) tt)
  step-AllKeys (woken m at) pending u keys =
      if-AllKeys (is_sent_at at (lookup m pending)) _ _ (delete-AllKeys HasColon m pending keys)
        keys

  waits-step :
      (e : Step) (pending : Map ℕ)
      → is_positive timeout ≡ true
      → IsUsual e
      → IsOther mac sent e
      → AllKeys HasColon pending
      → waits (step timeout e pending) ≡ (waits pending && leaves mac sent e)
  unfolding step leaves note_pending note_served wake lookup
  waits-step (offered now m) pending pos u other keys =
      rw (pos, colon-nonempty m u, lookup-insert m mac now pending) (ground arith)
  waits-step (served tag) pending pos u other keys =
      rw (opaque_tag tag pending keys u) (ground arith)
  waits-step (woken m at) pending pos u other keys = elim (Bool-cases (text_eq m mac)) [
    | inl same ↦
        let here = ap (λ k. is_sent_at at (lookup k pending)) ((text_eq_iff m mac).0 same) in
        elim (Bool-cases (is_sent_at at (lookup mac pending))) [
          | inl e ↦
              rw (here ∙ e, lookup-delete m mac pending, same)
                (sym (is_sent_at_only (lookup mac pending) at sent e))
          | inr e ↦ rw (here ∙ e, same) (sym (is_sent_at_other (lookup mac pending) at sent e))
        ]
    | inr differ ↦ elim (Bool-cases (is_sent_at at (lookup m pending))) [
      | inl e ↦ rw (e, lookup-delete m mac pending, differ) (ground arith)
      | inr e ↦ rw (e, differ) (ground arith)
    ]
  ]

  waits-run :
      (es : List Step) (pending : Map ℕ)
      → is_positive timeout ≡ true
      → All IsUsual es
      → All (IsOther mac sent) es
      → AllKeys HasColon pending
      → waits (run timeout es pending) ≡ (waits pending && all_leave mac sent es)
  unfolding run all_leave
  waits-run [] pending pos usual others keys = ground arith
  waits-run (e ∷ es) pending pos usual others keys =
      waits-run es (step timeout e pending) pos usual.1 others.1
        (step-AllKeys e pending usual.0 keys)
      ∙ rw (waits-step e pending pos usual.0 others.0 keys) (ground arith)

run-AllKeys :
    (timeout : ℤ) (es : List Step) (pending : Map ℕ)
    → All IsUsual es
    → AllKeys HasColon pending
    → AllKeys HasColon (run timeout es pending)
unfolding run
run-AllKeys timeout [] pending usual keys = keys
run-AllKeys timeout (e ∷ es) pending usual keys =
    run-AllKeys timeout es (step timeout e pending) usual.1
      (step-AllKeys timeout [] 0 e pending usual.0 keys)

offered_waits :
    (timeout : ℤ) (mac : Text) (sent : ℕ) (pending : Map ℕ)
    → is_positive timeout ≡ true
    → has_colon mac ≡ true
    → is_sent_at sent (lookup mac (step timeout (offered sent mac) pending)) ≡ true
unfolding step note_pending
offered_waits timeout mac sent pending pos colon =
    rw (pos, colon-nonempty mac colon, lookup-insert mac mac sent pending, text_eq_refl mac)
      ((==_iff sent sent).1 refl)

-- In a run from the empty listener, with a positive timeout, where offers go to addresses with
-- colons and the servers' tags have none: when the goroutine of an offer wakes, it gives the hint
-- exactly when since this offer there was no other offer to the machine, nothing was served and the
-- goroutine had not woken before. No later offer to the machine has the time of this one.
pub hint_iff :
    (timeout : ℤ) (before after : List Step) (mac : Text) (sent : ℕ)
    → is_positive timeout ≡ true
    → has_colon mac ≡ true
    → All IsUsual before
    → All IsUsual after
    → All (IsOther mac sent) after
    → (wake mac sent
        (run timeout after (step timeout (offered sent mac) (run timeout before [])))).1
      ≡ all_leave mac sent after
unfolding wake
hint_iff timeout before after mac sent pos colon usual usual' others =
    let start = run timeout before [] in
    let keys = run-AllKeys timeout before [] usual tt in
    let offer = offered sent mac in
    let recorded : is_sent_at sent (lookup mac (step timeout offer start)) ≡ true =
      offered_waits timeout mac sent start pos colon in
    waits-run timeout mac sent after (step timeout offer start) pos usual' others
      (step-AllKeys timeout mac sent offer start colon keys)
    ∙ rw recorded refl
