-- ===== src/Pending.antt =====
-- The pending-intent store, internal/pending/pending.go. A method takes the store and the reading
-- of the clock, and returns the store that it leaves beside its results.
pub mod History
pub mod Retention
pub mod Cancelling
pub mod Queueing
pub mod Tests
use pxe_beacon.Base.{
  ℕ, ◌+◌, Bool, true, false, Option, none, some, List, [], ◌∷◌, ltb, if◌then◌else◌, is_some, ℤ,
  is_positive, add_duration, length, Text, Map, lookup, insert, delete,
}
use pxe_beacon.Mac.{canonical_mac}

pub data Action : Type 0 where
  install rescue : Action

pub record Entry : Type 0 where
  pub action : Action
  pub requested_at : ℕ

pub record Store : Type 0 where
  pub entries : Map Entry
  pub ttl : ℤ

-- What `Status` returns when its last result is true; 0 is the zero time, "no expiry".
pub record Status : Type 0 where
  pub action : Action
  pub requested_at : ℕ
  pub expires_at : ℕ

unfoldable pub empty : ℤ → Store
empty ttl = record { entries = []; ttl = ttl }

unfoldable pub queue_entry : Store → ℕ → Action → Option Text → Store × Option ℕ
queue_entry s now action none = (s, none)
queue_entry s now action (some canon) = (
  record s { entries = insert canon (record { action = action; requested_at = now }) s.entries },
  some (if is_positive s.ttl then add_duration now s.ttl else 0),
)

-- The second part is `none` where the source returns an error.
unfoldable pub queue : Store → ℕ → Text → Action → Store × Option ℕ
unfolding queue_entry
queue s now mac action = queue_entry s now action (canonical_mac mac)

unfoldable pub install_machine : Store → ℕ → Text → Store × Option ℕ
unfolding queue
install_machine s now mac = queue s now mac install

unfoldable pub rescue_machine : Store → ℕ → Text → Store × Option ℕ
unfolding queue
rescue_machine s now mac = queue s now mac rescue

cancel_entry : Store → Option Text → Store × Bool
cancel_entry s none = (s, false)
cancel_entry s (some canon) =
    (record s { entries = delete canon s.entries }, is_some (lookup canon s.entries))

unfoldable pub cancel : Store → Text → Store × Bool
unfolding cancel_entry
cancel s mac = cancel_entry s (canonical_mac mac)

-- The part of `Status` behind the lookup.
pub live : ℤ → ℕ → Option Entry → Option Status
live ttl now none = none
live ttl now (some e) =
    if is_positive ttl
    then (if ltb now (add_duration e.requested_at ttl)
        then some (record {
          action = e.action;
          requested_at = e.requested_at;
          expires_at = add_duration e.requested_at ttl;
        })
        else none)
    else some (record { action = e.action; requested_at = e.requested_at; expires_at = 0 })

pub entry_of : Store → Option Text → Option Entry
entry_of s none = none
entry_of s (some canon) = lookup canon s.entries

unfoldable pub status : Store → ℕ → Text → Option Status
unfolding live entry_of
status s now mac = live s.ttl now (entry_of s (canonical_mac mac))

unfoldable pub is_pending : Store → ℕ → Text → Bool
unfolding status
is_pending s now mac = is_some (status s now mac)

unfoldable pub size : Store → ℕ
size s = length s.entries

-- The loop of `RetainOnly`: the entries kept, the number removed, the keys dropped.
pub sweep : (Text → Bool) → Map Entry → Map Entry × ℕ × List Text
sweep known [] = ([], 0, [])
sweep known ((mac, e) ∷ m) =
    let (kept, removed, dropped) = sweep known m in
    if known mac then ((mac, e) ∷ kept, removed, dropped) else (kept, removed + 1, mac ∷ dropped)

unfoldable pub retain_only : Store → (Text → Bool) → Store × ℕ × List Text
unfolding sweep
retain_only s known =
    let (kept, removed, dropped) = sweep known s.entries in
    (record s { entries = kept }, removed, dropped)
