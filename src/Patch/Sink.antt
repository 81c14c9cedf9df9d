-- ===== src/Patch/Sink.antt =====
-- The consumer of a patch pass: `PatchSink` and `SharedPatchState` of src/recovery/patch.rs.
pub mod Statuses
use freemkv_engine.Base.{
  ℕ, ◌+◌, ◌-◌, Bool, true, false, not, ◌&&◌, Option, none, some, List, [], ◌∷◌, ltb, if◌then◌else◌,
}
use freemkv_engine.Ranges.{ByteRange, intersect}
use freemkv_engine.SubRanges.{total_len}
use freemkv_engine.Mapfile.Status.{SectorStatus, damage_sector_statuses}
use freemkv_engine.Mapfile.Entry.{MapStats}
use freemkv_engine.Mapfile.State.{Mapfile, Result, ok, err, ranges_with}
use freemkv_engine.Mapfile.Persist.{Env, World, record_range}
use freemkv_engine.Copy.{map_stats}
use freemkv_engine.Sweep.{Image, SweepSink, FileEvents, apply_good, close}
use freemkv_engine.Delivery.{Flow, continue, stop, deliver}
use freemkv_engine.Patch.{PatchItem}

-- `SharedPatchState`, less the rendered drilldown.
pub record SharedPatchState : Type 0 where
  pub stats : MapStats
  pub bad_bytes_in_title : ℕ
  pub damage_in_scope : ℕ

-- `PatchSink`, with what `libfreemkv` answers of the bad bytes in its title.
pub record PatchSink : Type 0 where
  pub file : Image
  pub world : World
  pub is_regular : Bool
  pub shared : SharedPatchState
  pub title_bytes : List ByteRange → ℕ
  pub last_republish : Option ℕ

abbrev pub republish_cadence : ℕ
republish_cadence = 250

abbrev pub damage_of : Mapfile → List ByteRange
damage_of m = ranges_with m.entries damage_sector_statuses

abbrev pub in_scope : Option (List ByteRange) → List ByteRange → List ByteRange
in_scope none ranges = ranges
in_scope (some scope) ranges = intersect ranges scope

-- `SharedPatchState::from_map`.
unfoldable pub from_map : Mapfile → (List ByteRange → ℕ) → SharedPatchState
from_map m title_bytes = record {
  stats = map_stats m;
  bad_bytes_in_title = title_bytes (damage_of m);
  damage_in_scope = total_len (in_scope m.scope (damage_of m));
}

abbrev pub published_lately : ℕ → Option ℕ → Bool
published_lately now none = false
published_lately now (some prev) = ltb (now - prev) republish_cadence

-- `republish` with `publish_now`.
unfoldable pub republish : Bool → ℕ → PatchSink → PatchSink
republish force now s =
    if not force && published_lately now s.last_republish
    then s
    else record s { last_republish = some now; shared = from_map s.world.map s.title_bytes }

-- The file and the mapfile, with which this consumer does what that of a sweep does.
abbrev pub base : PatchSink → SweepSink
base s = record { image = s.file; world = s.world; is_regular = s.is_regular; channel = none }

abbrev pub on_base : {A : Type 0} → PatchSink → Result A × SweepSink → Result A × PatchSink
on_base s (r, t) = (r, record s { file = t.image; world = t.world })

abbrev pub record_residue : PatchSink → Result (Unit {0}) × World → Result Flow × PatchSink
record_residue s (ok _, w) = (ok continue, record s { world = w })
record_residue s (err e, w) = (err e, record s { world = w })

-- The arms of `apply`. That of `Recovered` has the statements of a sweep's `Good`.
abbrev pub apply_item : Env → Env → FileEvents → PatchItem → PatchSink → Result Flow × PatchSink
apply_item checked env ev (PatchItem.recovered pos buf) s =
    on_base s (apply_good checked env ev pos buf (base s))
apply_item checked env ev (PatchItem.non_trimmed pos len) s =
    record_residue s (record_range env pos len SectorStatus.non_trimmed s.world)

abbrev pub publish : {A : Type 0} → Bool → ℕ → Result A × PatchSink → Result A × PatchSink
publish force now (ok a, s) = (ok a, republish force now s)
publish force now (err e, s) = (err e, s)

-- What an item meets: the clock of the check and of the record, the image file, and the clock of
-- the report.
pub record ApplyEvents : Type 0 where
  pub checked : Env
  pub env : Env
  pub file : FileEvents
  pub now : ℕ

-- `PatchSink::apply`.
unfoldable pub apply : ApplyEvents → PatchItem → PatchSink → Result Flow × PatchSink
apply ev item s =
    if s.world.map.disowned
    then (ok stop, s)
    else publish false ev.now (apply_item ev.checked ev.env ev.file item s)

-- The consumer's loop over the items that it gets.
abbrev pub apply_all : (ℕ → ApplyEvents) → ℕ → List PatchItem → PatchSink → Result Flow × PatchSink
apply_all events = deliver (λ n. apply (events n))

-- `PatchSink::close`, up to the drop of the mapfile.
unfoldable pub close_pass : ApplyEvents → PatchSink → Result MapStats × PatchSink
close_pass ev s = publish true ev.now (on_base s (close ev.env ev.file (base s)))
