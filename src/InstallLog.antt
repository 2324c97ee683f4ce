-- ===== src/InstallLog.antt =====
-- The installer-log store, internal/installlog/installlog.go. The nil slice and the empty slice
-- are both the empty text.
pub mod Retained
pub mod Tests
use pxe_beacon.Base.{
  ℕ, ◌+◌, ◌-◌, Bool, Option, none, some, List, [], ◌∷◌, ◌++◌, ltb, if◌then◌else◌, length, drop,
  Text, Map, lookup, insert,
}
use pxe_beacon.Mac.{canonical_mac}

abbrev pub max_per_mac : ℕ
max_per_mac = 65536

pub record Store : Type 0 where
  pub entries : Map Text

unfoldable pub empty : Store
empty = record { entries = [] }

unfoldable pub or_nil : Option Text → Text
or_nil none = []
or_nil (some b) = b

-- `m[k]`: the zero value where the key is missing.
unfoldable pub log_of : Map Text → Text → Text
log_of m k = or_nil (lookup k m)

-- The last `cap` bytes.
unfoldable pub trim : ℕ → Text → Text
trim cap cur = if ltb cap (length cur) then drop (length cur - cap) cur else cur

append_entry : Store → Text → Option Text → Store
append_entry s b none = s
append_entry s b (some canon) = record {
  entries = insert canon (trim max_per_mac (log_of s.entries canon ++ b)) s.entries;
}

unfoldable pub append : Store → Text → Text → Store
unfolding append_entry trim log_of
append s mac b = append_entry s b (canonical_mac mac)

get_entry : Store → Option Text → Text
get_entry s none = []
get_entry s (some canon) = log_of s.entries canon

unfoldable pub get : Store → Text → Text
unfolding get_entry log_of
get s mac = get_entry s (canonical_mac mac)

unfoldable pub size : Store → ℕ
size s = length s.entries

sweep : (Text → Bool) → Map Text → Map Text × ℕ
sweep known [] = ([], 0)
sweep known ((mac, b) ∷ m) =
    let (kept, removed) = sweep known m in
    if known mac then ((mac, b) ∷ kept, removed) else (kept, removed + 1)

unfoldable pub retain_only : Store → (Text → Bool) → Store × ℕ
unfolding sweep
retain_only s known =
    let (kept, removed) = sweep known s.entries in (record { entries = kept }, removed)
