-- ===== src/Copy.antt =====
-- The copy dispatch of src/recovery/mod.rs: `copy_titled`, `image_state`, `no_image` and
-- `CopyResult`; and `Mapfile::stats` of src/recovery/mapfile.rs, which it reads.
pub mod Widen
pub mod Complete
pub mod Refusal
use freemkv_engine.Base.{
  ℕ, ◌+◌, ◌-◌, Bool, true, false, not, ◌&&◌, ◌||◌, Option, none, some, List, [], ◌∷◌, min, max, ltb,
  leb, ◌==◌, if◌then◌else◌, saturating_add, saturating_sub,
}
use freemkv_engine.Ranges.{ByteRange, range_end}
use freemkv_engine.Mapfile.Status.{non_tried, status_eq}
use freemkv_engine.Mapfile.Entry.{MapEntry, MapStats, run_end}
use freemkv_engine.Mapfile.State.{Mapfile, Error, Result, ok, err, clear_scope, raw_eq}
use freemkv_engine.Mapfile.Persist.{Disk, Env, World, flush}
use freemkv_engine.Mapfile.Identity.{DiscIdentity, check_identity}

-- The ranges that do not end at or before `pos`.
unfoldable pub skip_ranges : ℕ → List ByteRange → List ByteRange
skip_ranges pos [] = []
skip_ranges pos (r ∷ rs) = if leb (range_end r) pos then skip_ranges pos rs else r ∷ rs

-- The bytes of the entry inside the ranges that begin before its end.
unfoldable pub inside : MapEntry → List ByteRange → ℕ
inside e [] = 0
inside e (r ∷ rs) =
    if ltb r.0 (run_end e) then (min (range_end r) (run_end e) - max r.0 e.pos) + inside e rs else 0

-- `nontried_outside_scope`: the loop over the untried entries, with the ranges that are left.
unfoldable pub outside_loop : ℕ → List ByteRange → List MapEntry → ℕ
outside_loop outside ranges [] = outside
outside_loop outside ranges (e ∷ es) =
    let left = skip_ranges e.pos ranges in
    if status_eq e.status non_tried
    then outside_loop (saturating_add outside (saturating_sub e.size (inside e left))) left es
    else outside_loop outside ranges es

-- `Mapfile::stats`.
abbrev pub stats_in : Option (List ByteRange) → Mapfile → MapStats
stats_in none m = m.stats
stats_in (some ranges) m =
    let outside = outside_loop 0 ranges m.entries in
    record m.stats {
      bytes_pending = saturating_sub m.stats.bytes_pending outside;
      bytes_nontried = saturating_sub m.stats.bytes_nontried outside;
    }

unfoldable pub map_stats : Mapfile → MapStats
map_stats m = stats_in m.scope m

-- What a stat of the image's path answers.
pub data Metadata : Type 0 where
  absent : Metadata
  stat_error : ℕ → Metadata
  regular : ℕ → Metadata
  device : Metadata

-- `CopyResult`, and its `new`.
pub record CopyResult : Type 0 where
  pub bytes_total : ℕ
  pub bytes_good : ℕ
  pub bytes_unreadable : ℕ
  pub bytes_pending : ℕ
  pub recovered_this_pass : ℕ
  pub complete : Bool
  pub halted : Bool

unfoldable pub new_result : ℕ → ℕ → ℕ → ℕ → ℕ → Bool → CopyResult
new_result total good unreadable pending recovered halted = record {
  bytes_total = total;
  bytes_good = good;
  bytes_unreadable = unreadable;
  bytes_pending = pending;
  recovered_this_pass = recovered;
  complete = pending == 0 && unreadable == 0 && not halted;
  halted = halted;
}

-- Why a copy fails before a pass: one of the gates, the mapfile, or the stat of the image.
pub data CopyError : Type 0 where
  gate : ℕ → CopyError
  map_error : Error → CopyError
  image_error : ℕ → CopyError

-- What the dispatch answers with: a sweep (resumed or fresh), a patch, or a result at once.
pub data Dispatch : Type 0 where
  sweep : Bool → Dispatch
  patch : Dispatch
  done : CopyResult → Dispatch
  failed : CopyError → Dispatch

-- What the dispatch reads of its arguments: the answers of its three gates, in order
-- (`ensure_decryptable_with`, `ensure_image_debussable`, `image_read_sectors`), the disc's capacity
-- and identity, the options, and the image's metadata.
pub record Request : Type 0 where
  pub decryptable : Option ℕ
  pub debussable : Option ℕ
  pub readable : Option ℕ
  pub capacity_bytes : ℕ
  pub identity : DiscIdentity
  pub decrypt : Bool
  pub multipass : Bool
  pub image : Metadata

-- `ImageState::is_intact` of `image_state`, for the length that is wanted.
unfoldable pub image_intact : Metadata → ℕ → Option Bool
image_intact absent want = some (0 == want)
image_intact (stat_error e) want = none
image_intact (regular len) want = some (len == want)
image_intact device want = some true

-- The decision by the statistics.
unfoldable pub by_stats : Request → MapStats → Bool → Bool → Dispatch
by_stats req s covers intact =
    let bad = s.bytes_pending + s.bytes_unreadable in
    let finished = covers && bad == 0 && s.bytes_nontried == 0 in
    let terminal = new_result req.capacity_bytes s.bytes_good s.bytes_unreadable in
    if finished && not intact
    then sweep false
    else if finished && intact
    then done (terminal 0 0 false)
    else if not covers
    then sweep false
    else if ltb 0 s.bytes_nontried
    then sweep true
    else if req.multipass
    then (if ltb 0 s.bytes_retryable then patch else done (terminal 0 0 false))
    else done (terminal s.bytes_pending 0 false)

abbrev pub stat_code : Metadata → ℕ
stat_code (stat_error e) = e
stat_code _ = 0

-- The decision for a mapfile of this disc.
unfoldable pub by_map : Request → Mapfile → Dispatch
by_map req m =
    if raw_eq m.raw req.decrypt
    then sweep false
    else elim (image_intact req.image req.capacity_bytes) [
      | none ↦ failed (image_error (stat_code req.image))
      | some intact ↦ by_stats req (map_stats m) (m.total_size == req.capacity_bytes) intact
    ]

-- `no_image`.
unfoldable pub no_image : Metadata → Option Bool
no_image absent = some true
no_image (stat_error e) = none
no_image (regular len) = some (len == 0)
no_image device = some false

-- After a failed flush the mapfile is dropped, which flushes once more.
abbrev pub after_flush : Env → Result (Unit {0}) × World → Result Mapfile × Disk
after_flush drop (ok _, w) = (ok w.map, w.disk)
after_flush drop (err e, w) = (err e, (flush drop w).1.disk)

-- A scoped image is widened to the whole disc, and its mapfile flushed.
abbrev pub widen_from : Option (List ByteRange) → Env → Env → Mapfile → Disk → Result Mapfile × Disk
widen_from none env drop m d = (ok m, d)
widen_from (some _) env drop m d =
    after_flush drop (flush env (record { map = clear_scope m; disk = d }))

unfoldable pub widen : Env → Env → Mapfile → Disk → Result Mapfile × Disk
widen env drop m d = widen_from m.scope env drop m d

abbrev pub by_widened : Request → Result Mapfile × Disk → Dispatch × Disk
by_widened req (ok m, d) = (by_map req m, d)
by_widened req (err e, d) = (failed (map_error e), d)

-- The checks of a mapfile's identity, before and after it is widened; widening keeps what they read.
unfoldable pub by_identity : Request → Env → Env → Mapfile → Disk → Dispatch × Disk
by_identity req env drop m d = elim (check_identity m req.identity) [
  | ok _ ↦ by_widened req (widen env drop m d)
  | err e ↦ elim (no_image req.image) [
    | none ↦ (failed (image_error (stat_code req.image)), d)
    | some gone ↦ (if gone then sweep false else failed (map_error e), d)
  ]
]

-- What becomes of the answer of `Mapfile::load`; `is_invalid_data` tells an error's kind.
unfoldable pub by_load :
    (Error → Bool) → Request → Env → Env → Result Mapfile → Disk → Dispatch × Disk
by_load is_invalid_data req env drop loaded d = elim loaded [
  | ok m ↦ by_identity req env drop m d
  | err e ↦ (if is_invalid_data e then sweep false else failed (map_error e), d)
]

abbrev pub first_refusal : Request → Option ℕ
first_refusal req = elim req.decryptable [
  | some e ↦ some e
  | none ↦ elim req.debussable [ some e ↦ some e | none ↦ req.readable ]
]

-- `copy_titled` up to the pass that it starts; `loaded` is none where no mapfile exists.
unfoldable pub copy_titled :
    (Error → Bool) → Request → Env → Env → Option (Result Mapfile) → Disk → Dispatch × Disk
copy_titled is_invalid_data req env drop loaded d = elim (first_refusal req) [
  | some e ↦ (failed (gate e), d)
  | none ↦ elim loaded [
    | none ↦ (sweep false, d)
    | some answer ↦ by_load is_invalid_data req env drop answer d
  ]
]
