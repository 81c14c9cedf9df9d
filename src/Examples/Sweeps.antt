-- ===== src/Examples/Sweeps.antt =====
-- The consumer of a sweep at concrete inputs (src/recovery/sweep.rs).
use freemkv_engine.Base.{
  ℕ, ◌≡◌, refl, Bool, true, false, Option, none, some, List, [], ◌∷◌, arith, if◌then◌else◌, ◌&&◌,
  leb, ltb, ◌+◌,
}
use freemkv_engine.Mapfile.Status.{status_eq, finished, non_tried}
use freemkv_engine.Mapfile.Entry.{compute_stats}
use freemkv_engine.Mapfile.Runs.{status_at, IsRuns}
use freemkv_engine.Mapfile.State.{Mapfile}
use freemkv_engine.Mapfile.Render.{render, render_lines}
use freemkv_engine.Mapfile.Persist.{Env, record_range, flush}
use freemkv_engine.Sweep.{
  SweepSink, FileEvents, apply, apply_good, apply_fill, close, good, skip_fill, filled, fill_loop,
  sync_if_due, map_of,
}
use freemkv_engine.Sweep.Bytes.{fill_loop-IsFilled, is_some}
use freemkv_engine.Sweep.Written.{IsWritten, apply-IsWritten}
use freemkv_engine.Sweep.Durable.{IsOrdered, close_durable, apply-IsOrdered}

abbrev at : ℕ → Env
at now = record {
  now = now;
  after = now + 1;
  events = record {
    tmp_error = none;
    partial = none;
    disowned_meanwhile = false;
    disowned_at_rename = false;
    rename_error = none;
    removal_works = true;
  };
}

abbrev works : FileEvents
works = record {
  seek_error = none;
  write_error = none;
  bytes_left = 0;
  sync_error = none;
  chunks = [];
}

abbrev new_map : Mapfile
new_map =
    let entries = record { pos = 0; size = 1000; status = non_tried } ∷ [] in
    record {
      entries = entries;
      total_size = 1000;
      version = [];
      stats = compute_stats entries 1000;
      dirty = false;
      last_flushed = 0;
      disc_hash = none;
      vidfp = none;
      legacy_keyfps = [];
      scope = none;
      raw = some false;
      disowned = false;
    }

-- A hundred bytes are finished, and the image holds a byte everywhere.
abbrev part_map : Mapfile
part_map =
    let entries =
      record { pos = 0; size = 100; status = finished }
      ∷ record { pos = 100; size = 900; status = non_tried }
      ∷ [] in
    record new_map { entries = entries; stats = compute_stats entries 1000; dirty = true }

abbrev sink_of : Mapfile → (ℕ → Option ℕ) → SweepSink
sink_of m contents = record {
  image = record { contents = contents; durable = λ _. none };
  world = record { map = m; disk = record { file = none; tmp = none } };
  is_regular = true;
  channel = none;
}

abbrev half_done : SweepSink
half_done = sink_of part_map (λ _. some 7)

part_map-IsRuns : IsRuns 0 part_map.entries
part_map-IsRuns = (
  omega arith,
  (omega arith, omega arith),
  (λ _ e. ground arith),
  (omega arith, (omega arith, omega arith), tt, tt),
)

apply-IsWritten_example :
    IsWritten 201 (apply (at 500) (at 500) works (good 200 (8 ∷ 9 ∷ [])) half_done).1
apply-IsWritten_example =
    apply-IsWritten (at 500) (at 500) works (good 200 (8 ∷ 9 ∷ [])) half_done 201 part_map-IsRuns
      (λ _. refl)

apply-IsOrdered_example :
    IsOrdered half_done (apply (at 5000) (at 5000) works (good 200 (8 ∷ 9 ∷ [])) half_done)
apply-IsOrdered_example =
    apply-IsOrdered (at 5000) (at 5000) works 200 (8 ∷ 9 ∷ []) half_done refl (λ h. h)

close_durable_example : is_some ((close (at 500) works half_done).1.image.durable 5) ≡ true
unfolding close flush status_at
close_durable_example = close_durable (at 500) works half_done 5 (λ _. refl) refl refl refl

fill_loop-IsFilled_example :
    ((fill_loop 5 9 [] 200 0 5 (λ _. some 7)).0 ≡ filled)
    × ((events : List (Bool × Option ℕ)) (x : ℕ)
        → (fill_loop 5 9 events 200 0 5 (λ _. some 7)).0 ≡ filled
        → (fill_loop 5 9 events 200 0 5 (λ _. some 7)).1 x
          ≡ (if leb 200 x && ltb x 205 then some 0 else some 7))
fill_loop-IsFilled_example = fill_loop-IsFilled 9 200 5 (λ _. some 7)

-- Good data, recorded before a save is due, then a fill after it is due: the mapfile is saved
-- without a sync, so its finished bytes are not durable.
abbrev after_fill : SweepSink
after_fill =
    (apply (at 2000) (at 2000) works (skip_fill 300 2)
      (apply (at 500) (at 500) works (good 200 (8 ∷ 9 ∷ [])) (sink_of new_map (λ _. none))).1).1

saved_unsynced :
    (status_at (map_of after_fill).entries 200 ≡ some finished)
    × (after_fill.world.disk.file ≡ some (render (map_of after_fill)))
    × (after_fill.image.durable 200 ≡ none)
unfolding apply apply_good apply_fill sync_if_due record_range fill_loop status_at status_eq render
    render_lines
saved_unsynced = (refl, refl, refl)
