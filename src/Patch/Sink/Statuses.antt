-- ===== src/Patch/Sink/Statuses.antt =====
-- What the consumer of a patch pass (src/recovery/patch.rs) leaves in its mapfile.
use freemkv_engine.Base.{ℕ, refl, false, List, arith, length, if_split}
use freemkv_engine.Mapfile.Status.{SectorStatus, non_trimmed, finished}
use freemkv_engine.Mapfile.Runs.{IsRuns}
use freemkv_engine.Mapfile.State.{Result, ok, err}
use freemkv_engine.Mapfile.Persist.{Env, World, record_range}
use freemkv_engine.Mapfile.Persist.Atomic.{is_ok}
use freemkv_engine.Sweep.{SweepSink, FileEvents, apply_good, map_of}
use freemkv_engine.Delivery.{Flow, continue, stop}
use freemkv_engine.Delivery.Statuses
use freemkv_engine.Sweep.Statuses.{IsMarked, record_range-IsMarked, apply_good-IsMarked}
use freemkv_engine.Patch.{PatchItem}
use freemkv_engine.Patch.Account.{item_covers}
use freemkv_engine.Patch.Sink.{
  PatchSink, base, on_base, record_residue, apply_item, publish, republish, ApplyEvents, apply,
}

-- The status that an item gives to its bytes.
abbrev pub status_of : PatchItem → SectorStatus
status_of (PatchItem.recovered pos buf) = finished
status_of (PatchItem.non_trimmed pos len) = non_trimmed

abbrev pub IsApplied : PatchItem → ℕ → PatchSink → Result Flow × PatchSink → Type 0
IsApplied = Statuses.IsApplied (λ (s : PatchSink). s.world.map.entries) item_covers status_of

on_base-IsApplied :
    (pos : ℕ) (buf : List ℕ) (x : ℕ) (s : PatchSink) (r : Result Flow × SweepSink)
    → IsMarked finished pos (length buf) x s.world.map (is_ok r.0) (map_of r.1)
    → IsApplied (PatchItem.recovered pos buf) x s (on_base s r)
on_base-IsApplied pos buf x s (ok continue, t) i h = i refl
on_base-IsApplied pos buf x s (ok stop, t) i h = i refl
on_base-IsApplied pos buf x s (err e, t) i h = cc

record_residue-IsApplied :
    (pos len x : ℕ) (s : PatchSink) (r : Result (Unit {0}) × World)
    → IsMarked non_trimmed pos len x s.world.map (is_ok r.0) r.1.map
    → IsApplied (PatchItem.non_trimmed pos len) x s (record_residue s r)
record_residue-IsApplied pos len x s (ok _, w) i h = i refl
record_residue-IsApplied pos len x s (err e, w) i h = cc

apply_item-IsApplied :
    (checked env : Env) (ev : FileEvents) (item : PatchItem) (s : PatchSink) (x : ℕ)
    → IsRuns 0 s.world.map.entries
    → IsApplied item x s (apply_item checked env ev item s)
apply_item-IsApplied checked env ev (PatchItem.recovered pos buf) s x r =
    on_base-IsApplied pos buf x s (apply_good checked env ev pos buf (base s))
      (apply_good-IsMarked checked env ev pos buf (base s) x r)
apply_item-IsApplied checked env ev (PatchItem.non_trimmed pos len) s x r =
    record_residue-IsApplied pos len x s (record_range env pos len non_trimmed s.world)
      (record_range-IsMarked env pos len non_trimmed s.world x r)

publish-IsApplied :
    (item : PatchItem) (x now : ℕ) (s : PatchSink) (r : Result Flow × PatchSink)
    → IsApplied item x s r
    → IsApplied item x s (publish false now r)
unfolding republish
publish-IsApplied item x now s (ok f, s') i h = ground (arith, i h)
publish-IsApplied item x now s (err e, s') i h = cc

pub apply-IsApplied :
    (ev : ApplyEvents) (item : PatchItem) (s : PatchSink) (x : ℕ)
    → IsRuns 0 s.world.map.entries
    → IsApplied item x s (apply ev item s)
unfolding apply
apply-IsApplied ev item s x r =
    let went = apply_item ev.checked ev.env ev.file item s in
    if_split (IsApplied item x s) s.world.map.disowned (ok stop, s) (publish false ev.now went)
      (λ _ h. cc)
      (λ _.
        publish-IsApplied item x ev.now s went
          (apply_item-IsApplied ev.checked ev.env ev.file item s x r))
