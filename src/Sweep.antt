-- ===== src/Sweep.antt =====
-- The consumer of a sweep: `SweepSink` of src/recovery/sweep.rs, with `image_write_failed` of
-- src/recovery/mod.rs.
pub mod Bytes
pub mod Written
pub mod Statuses
pub mod Durable
use freemkv_engine.Base.{
  ℕ, zero, suc, ◌+◌, ◌-◌, Bool, true, false, not, ◌&&◌, ◌||◌, Option, none, some, List, [], ◌∷◌,
  min, ltb, leb, ◌==◌, if◌then◌else◌, length, take, drop,
}
use freemkv_engine.Ranges.{ByteRange}
use freemkv_engine.Mapfile.Status.{non_trimmed, finished, damage_sector_statuses}
use freemkv_engine.Mapfile.Entry.{MapStats}
use freemkv_engine.Mapfile.State.{Mapfile, Error, io, Result, ok, err, ranges_with, disown}
use freemkv_engine.Mapfile.Persist.{Disk, Env, World, record_range, flush, persist_due}
use freemkv_engine.Copy.{map_stats}
use freemkv_engine.Delivery.{Flow, continue, stop}

-- The image file: the bytes that were written, and those that are durable. It stands for
-- `libfreemkv::io::WritebackFile`, of which a sync makes durable what was written before.
pub record Image : Type 0 where
  pub contents : ℕ → Option ℕ
  pub durable : ℕ → Option ℕ

unfoldable pub write_bytes : ℕ → List ℕ → (ℕ → Option ℕ) → ℕ → Option ℕ
write_bytes pos [] c x = c x
write_bytes pos (b ∷ bs) c x =
    let later = write_bytes (pos + 1) bs c x in if x == pos then some b else later

unfoldable pub write_zeros : ℕ → ℕ → (ℕ → Option ℕ) → ℕ → Option ℕ
write_zeros pos n c x = if leb pos x && ltb x (pos + n) then some 0 else c x

-- `WorkItem`.
pub data WorkItem : Type 0 where
  good : ℕ → List ℕ → WorkItem
  skip_fill gap_fill : ℕ → ℕ → WorkItem
  stats_request : WorkItem

-- `ProgressSnapshot`.
pub record ProgressSnapshot : Type 0 where
  pub stats : MapStats
  pub bad_ranges : List ByteRange

-- `SweepSink`: its image, its mapfile with the disk, and the back-channel, which holds one snapshot.
pub record SweepSink : Type 0 where
  pub image : Image
  pub world : World
  pub is_regular : Bool
  pub channel : Option ProgressSnapshot

-- What the image file does to one item: the errors of its operations, how many bytes a failed write
-- leaves, and, for each chunk of a fill, whether a disown by another thread lands before it, and the
-- error of its write.
pub record FileEvents : Type 0 where
  pub seek_error : Option ℕ
  pub write_error : Option ℕ
  pub bytes_left : ℕ
  pub sync_error : Option ℕ
  pub chunks : List (Bool × Option ℕ)

abbrev pub map_of : SweepSink → Mapfile
map_of s = s.world.map

abbrev pub with_contents : SweepSink → (ℕ → Option ℕ) → SweepSink
with_contents s c = record s { image = record s.image { contents = c } }

-- `disown_handle().disown()`.
abbrev pub disowned : SweepSink → SweepSink
disowned s = record s { world = record s.world { map = disown s.world.map } }

-- `image_write_failed`.
abbrev pub image_write_failed : ℕ → SweepSink → Result Flow × SweepSink
image_write_failed e s = (err (io e), disowned s)

-- `sync_all` that went through.
abbrev pub synced : SweepSink → SweepSink
synced s = record s { image = record s.image { durable = s.image.contents } }

abbrev pub sync_image : Option ℕ → SweepSink → Result Flow × SweepSink
sync_image none s = (ok continue, synced s)
sync_image (some e) s = image_write_failed e s

abbrev pub recorded : SweepSink → Result (Unit {0}) × World → Result Flow × SweepSink
recorded s (ok _, w) = (ok continue, record s { world = w })
recorded s (err e, w) = (err e, record s { world = w })

-- The sync before a record that is due, by the clock that `checked` reads.
unfoldable pub sync_if_due : Env → FileEvents → SweepSink → Result Flow × SweepSink
sync_if_due checked ev s =
    if persist_due checked (map_of s) && s.is_regular
    then sync_image ev.sync_error s
    else (ok continue, s)

abbrev pub record_good : Env → ℕ → ℕ → Result Flow × SweepSink → Result Flow × SweepSink
record_good env pos len (ok _, s) = recorded s (record_range env pos len finished s.world)
record_good env pos len (err e, s) = (err e, s)

-- `apply` of `Good`.
unfoldable pub apply_good :
    Env → Env → FileEvents → ℕ → List ℕ → SweepSink → Result Flow × SweepSink
apply_good checked env ev pos buf s =
    let contents = s.image.contents in
    elim ev.seek_error [
      | some e ↦ image_write_failed e s
      | none ↦ elim ev.write_error [
        | some e ↦
            image_write_failed e
              (with_contents s (write_bytes pos (take ev.bytes_left buf) contents))
        | none ↦
            record_good env pos (length buf)
              (sync_if_due checked ev (with_contents s (write_bytes pos buf contents)))
      ]
    ]

-- The loop of a fill over its chunks: none where a disown stops it, else whether all was written,
-- and the contents. One round of fuel writes one chunk.
pub data Filled : Type 0 where
  filled stopped : Filled
  write_failed : ℕ → Filled

abbrev pub zero_chunk : ℕ
zero_chunk = 65536

abbrev pub next_chunk : List (Bool × Option ℕ) → Bool × Option ℕ
next_chunk [] = (false, none)
next_chunk (event ∷ events) = event

unfoldable pub fill_loop :
    ℕ → ℕ → List (Bool × Option ℕ) → ℕ → ℕ → ℕ → (ℕ → Option ℕ) → Filled × (ℕ → Option ℕ)
fill_loop zero left events pos done len c = (filled, c)
fill_loop (suc fuel) left events pos done len c =
    let chunk = min (len - done) zero_chunk in
    let rest =
      fill_loop fuel left (drop 1 events) pos (done + chunk) len
        (write_zeros (pos + done) chunk c) in
    if leb len done
    then (filled, c)
    else if (next_chunk events).0
    then (stopped, c)
    else elim (next_chunk events).1 [
      | some e ↦ (write_failed e, write_zeros (pos + done) (min left chunk) c)
      | none ↦ rest
    ]

abbrev pub fill_done : Env → ℕ → ℕ → SweepSink → Filled × (ℕ → Option ℕ) → Result Flow × SweepSink
fill_done env pos len s (filled, c) =
    let t = with_contents s c in recorded t (record_range env pos len non_trimmed t.world)
fill_done env pos len s (stopped, c) = (ok stop, disowned (with_contents s c))
fill_done env pos len s (write_failed e, c) = image_write_failed e (with_contents s c)

-- `apply` of `SkipFill` and `GapFill`.
unfoldable pub apply_fill : Env → FileEvents → ℕ → ℕ → SweepSink → Result Flow × SweepSink
apply_fill env ev pos len s = elim ev.seek_error [
  | some e ↦ image_write_failed e s
  | none ↦
      fill_done env pos len s (fill_loop len ev.bytes_left ev.chunks pos 0 len s.image.contents)
]

-- `apply` of `StatsRequest`: a snapshot, dropped where the channel is full.
abbrev pub try_send : Option ProgressSnapshot → ProgressSnapshot → Option ProgressSnapshot
try_send none snapshot = some snapshot
try_send (some held) snapshot = some held

unfoldable pub apply_stats : SweepSink → Result Flow × SweepSink
apply_stats s = (
  ok continue,
  record s {
    channel = try_send s.channel (record {
      stats = map_stats (map_of s);
      bad_ranges = ranges_with (map_of s).entries damage_sector_statuses;
    });
  },
)

abbrev pub apply_item : Env → Env → FileEvents → WorkItem → SweepSink → Result Flow × SweepSink
apply_item checked env ev (good pos buf) s = apply_good checked env ev pos buf s
apply_item checked env ev (skip_fill pos len) s = apply_fill env ev pos len s
apply_item checked env ev (gap_fill pos len) s = apply_fill env ev pos len s
apply_item checked env ev stats_request s = apply_stats s

-- `SweepSink::apply`.
unfoldable pub apply : Env → Env → FileEvents → WorkItem → SweepSink → Result Flow × SweepSink
apply checked env ev item s =
    if (map_of s).disowned then (ok stop, s) else apply_item checked env ev item s

abbrev pub closed : SweepSink → Result (Unit {0}) × World → Result MapStats × SweepSink
closed s (ok _, w) = (ok (map_stats w.map), record s { world = w })
closed s (err e, w) = (err e, record s { world = w })

abbrev pub close_image : Env → Option ℕ → SweepSink → Result MapStats × SweepSink
close_image env none s = closed (synced s) (flush env s.world)
close_image env (some e) s =
    if s.is_regular then (err (io e), disowned s) else closed s (flush env s.world)

-- `SweepSink::close`, up to the drop of the mapfile.
unfoldable pub close : Env → FileEvents → SweepSink → Result MapStats × SweepSink
close env ev s = close_image env ev.sync_error s
