-- ===== src/Examples/MapfileRuns.antt =====
-- Runs of the mapfile model (src/recovery/mapfile.rs).
use freemkv_engine.Base.{
  ℕ, ◌+◌, ◌≤◌, ◌≡◌, refl, true, false, ◌&&◌, none, some, List, [], ◌∷◌, arith, ltb, leb,
  if◌then◌else◌, u64_max, length,
}
use freemkv_engine.Mapfile.Status.{
  SectorStatus, non_tried, non_trimmed, unreadable, finished, status_eq,
}
use freemkv_engine.Mapfile.Entry.{MapEntry, compute_stats, push_coalesced, tally}
use freemkv_engine.Mapfile.Runs.{status_at, IsRuns, coalesce}
use freemkv_engine.Mapfile.State.{err, invalid, range, disown}
use freemkv_engine.Mapfile.Persist.{
  WriteEvents, Disk, Env, World, fresh, record_range, promote, flush, write_locked,
}
use freemkv_engine.Mapfile.Splice.{window_pieces, splice_entries}
use freemkv_engine.Mapfile.Splice.Rebuild.{splice-eq-rebuild}
use freemkv_engine.Mapfile.Splice.Stats.{length-splice-le}
use freemkv_engine.Mapfile.Record.{
  IsCounted, status_at-record_range, record_range-IsCounted, record_range_wraps, status_at-promote,
  promote-IsCounted,
}
use freemkv_engine.Mapfile.Promote.{promote_status}
use freemkv_engine.Mapfile.Persist.Atomic.{
  IsSynced, is_ok, flush-IsSynced, write_locked_cleans, write_locked_atomic,
}
use freemkv_engine.Mapfile.Persist.Steps.{
  here, next, records, flushes, IsConsistent, Reach-IsConsistent,
}
use freemkv_engine.Mapfile.Persist.Disowned.{IsFrozen, Reach-IsFrozen}

abbrev entry : ℕ → ℕ → SectorStatus → MapEntry
entry pos size status = record { pos = pos; size = size; status = status }

abbrev three_runs : List MapEntry
three_runs = entry 0 100 finished ∷ entry 100 50 non_trimmed ∷ entry 150 850 non_tried ∷ []

-- An environment in which the flush is due and every write goes through.
abbrev quiet : Env
quiet = record {
  now = 5000;
  after = 5001;
  events = record {
    tmp_error = none;
    partial = none;
    disowned_meanwhile = false;
    disowned_at_rename = false;
    rename_error = none;
    removal_works = true;
  };
}

abbrev start : World
start = record {
  map = record (fresh 1000 [] 0) {
    entries = three_runs;
    stats = unfold compute_stats tally in compute_stats three_runs 1000;
    dirty = true;
  };
  disk = record { file = none; tmp = none };
}

-- A write in the middle of two runs splits both.
splice_middle :
    splice_entries 80 120 unreadable three_runs
    ≡ entry 0 80 finished
      ∷ entry 80 40 unreadable
      ∷ entry 120 30 non_trimmed
      ∷ entry 150 850 non_tried
      ∷ []
unfolding splice_entries push_coalesced status_eq
splice_middle = refl

three_runs-IsRuns : IsRuns 0 three_runs
three_runs-IsRuns = (
  omega arith,
  (omega arith, omega arith),
  (λ _ e. ground arith),
  (
    omega arith,
    (omega arith, omega arith),
    (λ _ e. ground arith),
    (omega arith, (omega arith, omega arith), tt, tt),
  ),
)

splice-eq-rebuild_example :
    splice_entries 80 150 finished three_runs
    ≡ coalesce (window_pieces 80 150 finished false three_runs)
splice-eq-rebuild_example =
    splice-eq-rebuild 80 150 finished (omega arith) (omega arith) 0 three_runs three_runs-IsRuns

status_at-record_range_example :
    status_at (record_range quiet 80 70 finished start).1.map.entries 100 ≡ (
      if leb 150 u64_max && leb 80 100 && ltb 100 150
      then some finished
      else status_at three_runs 100)
status_at-record_range_example =
    status_at-record_range quiet 80 70 finished start 100 three_runs-IsRuns

start-IsCounted : IsCounted start.map
unfolding compute_stats tally
start-IsCounted = refl

record_range-IsCounted_example : IsCounted (record_range quiet 80 70 finished start).1.map
record_range-IsCounted_example =
    record_range-IsCounted quiet 80 70 finished start three_runs-IsRuns (omega arith)
      start-IsCounted

record_range_wraps_example :
    record_range quiet 80 u64_max finished start ≡ (err (invalid range), start)
record_range_wraps_example =
    record_range_wraps quiet 80 u64_max finished start (omega arith) (omega arith)

status_at-promote_example :
    status_at (promote quiet (non_trimmed ∷ []) unreadable start).1.map.entries 120
    ≡ promote_status (non_trimmed ∷ []) unreadable (status_at three_runs 120)
status_at-promote_example =
    status_at-promote quiet (non_trimmed ∷ []) unreadable start 120 three_runs-IsRuns

promote-IsCounted_example : IsCounted (promote quiet (non_trimmed ∷ []) unreadable start).1.map
promote-IsCounted_example =
    promote-IsCounted quiet (non_trimmed ∷ []) unreadable start three_runs-IsRuns start-IsCounted

length-splice-le_example :
    length (splice_entries 80 120 unreadable three_runs) ≤ length three_runs + 2
length-splice-le_example =
    length-splice-le 80 120 unreadable (omega arith) (omega arith) three_runs three_runs-IsRuns

-- The dirty start is synced: only a clean mapfile has to be on disk.
start-IsSynced : IsSynced start
start-IsSynced clean owned = ground arith

start-IsConsistent : IsConsistent start
start-IsConsistent = record { runs = three_runs-IsRuns; synced = start-IsSynced }

flush-IsSynced_example :
    IsSynced (flush quiet start).1
    × (is_ok (flush quiet start).0 ≡ true → (flush quiet start).1.map.dirty ≡ false)
flush-IsSynced_example = flush-IsSynced quiet start start-IsSynced

abbrev recorded : World
recorded = (record_range quiet 80 70 finished start).1

Reach-IsConsistent_example : IsConsistent (flush quiet recorded).1
Reach-IsConsistent_example =
    Reach-IsConsistent
      (next (next here (records start quiet 80 70 finished)) (flushes recorded quiet))
      start-IsConsistent

abbrev abandoned : World
abandoned = record start { map = disown start.map }

Reach-IsFrozen_example : IsFrozen abandoned (flush quiet abandoned).1
Reach-IsFrozen_example =
    Reach-IsFrozen (next here (flushes abandoned quiet)) (unfold disown in refl)

abbrev old_disk : Disk
old_disk = record { file = some (1 ∷ []); tmp = none }

-- A disown that lands before the rename does not stop it.
abbrev late_disown : WriteEvents
late_disown = record quiet.events { disowned_at_rename = true }

write_locked_atomic_example : (write_locked late_disown false (2 ∷ []) old_disk).1.file ≡ (
    if is_ok (write_locked late_disown false (2 ∷ []) old_disk).0
    then some (2 ∷ [])
    else old_disk.file)
write_locked_atomic_example = write_locked_atomic late_disown false (2 ∷ []) old_disk

late_disown_renames : (write_locked late_disown false (2 ∷ []) old_disk).1.file ≡ some (2 ∷ [])
unfolding write_locked
late_disown_renames = refl

write_locked_cleans_example : (write_locked quiet.events false (2 ∷ []) old_disk).1.tmp ≡ none
write_locked_cleans_example = write_locked_cleans quiet.events (2 ∷ []) old_disk refl
