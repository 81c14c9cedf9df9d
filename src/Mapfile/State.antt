-- ===== src/Mapfile/State.antt =====
-- `Mapfile` of src/recovery/mapfile.rs: its state, its setters and its queries.
use freemkv_engine.Base.{
  ℕ, ◌-◌, Bool, true, false, not, Option, none, some, List, [], ◌∷◌, max, leb, if◌then◌else◌,
  nats_eq,
}
pub use freemkv_engine.Text.{Chars}
use freemkv_engine.Ranges.{ByteRange, merge_byte_ranges}
use freemkv_engine.Mapfile.Status.{SectorStatus, status_eq, contains}
use freemkv_engine.Mapfile.Entry.{MapEntry, MapStats, run_end}

-- The kinds of `Error::MapfileInvalid` (`invalid(kind)`), and the I/O errors that the code tells
-- apart by their kind.
pub data InvalidKind : Type 0 where
  disc vidfp keyfp vid raw scope short_line long_line range zero_size status_char overlap hex
        too_large disc_mismatch :
      InvalidKind

pub data Error : Type 0 where
  invalid : InvalidKind → Error
  not_found : Error
  io : ℕ → Error

-- `io::Result`.
pub data Result {ℓ} (A : Type ℓ) : Type ℓ where
  ok : A → Result A
  err : Error → Result A

-- `Mapfile`, less its path: the file that it names is the disk of `Persist`. Time is in
-- milliseconds.
pub record Mapfile : Type 0 where
  pub entries : List MapEntry
  pub total_size : ℕ
  pub version : Chars
  pub stats : MapStats
  pub dirty : Bool
  pub last_flushed : ℕ
  pub disc_hash : Option Chars
  pub vidfp : Option (List ℕ)
  pub legacy_keyfps : List (List ℕ)
  pub scope : Option (List ByteRange)
  pub raw : Option Bool
  pub disowned : Bool

-- `Mapfile::next_with`.
unfoldable pub next_with : List MapEntry → ℕ → SectorStatus → Option ByteRange
next_with [] from status = none
next_with (e ∷ entries) from status =
    let later = next_with entries from status in
    if not (status_eq e.status status)
    then later
    else if leb (run_end e) from
    then later
    else some (max e.pos from, run_end e - max e.pos from)

-- `Mapfile::ranges_with`.
unfoldable pub ranges_with : List MapEntry → List SectorStatus → List ByteRange
unfolding contains
ranges_with [] statuses = []
ranges_with (e ∷ entries) statuses =
    let others = ranges_with entries statuses in
    if contains statuses e.status then (e.pos, e.size) ∷ others else others

-- Equality of optional identities, as `PartialEq` derives it.
abbrev pub opt_eq : Option (List ℕ) → Option (List ℕ) → Bool
opt_eq none none = true
opt_eq (some a) (some b) = nats_eq a b
opt_eq _ _ = false

abbrev pub raw_eq : Option Bool → Bool → Bool
raw_eq none b = false
raw_eq (some true) b = b
raw_eq (some false) b = not b

-- `Mapfile::set_disc_hash`; `parse` is `parse_disc_hash` (see `Identity`).
unfoldable pub set_disc_hash : (Chars → Option Chars) → Mapfile → Chars → Mapfile
set_disc_hash parse m hash = elim (parse hash) [
  | none ↦ m
  | some h ↦
      if opt_eq (some h) m.disc_hash then m else record m { disc_hash = some h; dirty = true }
]

-- `Mapfile::set_vid_fingerprint` and `Mapfile::set_raw`.
unfoldable pub set_vid_fingerprint : Mapfile → List ℕ → Mapfile
set_vid_fingerprint m fp =
    if opt_eq m.vidfp (some fp) then m else record m { vidfp = some fp; dirty = true }

unfoldable pub set_raw : Mapfile → Bool → Mapfile
set_raw m value = if raw_eq m.raw value then m else record m { raw = some value; dirty = true }

-- `Mapfile::set_scope` and `Mapfile::clear_scope`.
unfoldable pub set_scope : Mapfile → List ByteRange → Mapfile
set_scope m ranges = record m { scope = some (merge_byte_ranges ranges); dirty = true }

unfoldable pub clear_scope : Mapfile → Mapfile
clear_scope m = elim m.scope [ none ↦ m | some _ ↦ record m { scope = none; dirty = true } ]

-- `MapfileDisown::disown`, as the mapfile sees it.
unfoldable pub disown : Mapfile → Mapfile
disown m = record m { disowned = true }
