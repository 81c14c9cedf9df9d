-- ===== src/Mapfile/Persist/Steps.antt =====
-- Any sequence of mapfile operations: `record`, `promote`, `flush` (also `Drop`'s), the setters, and
-- a disown from another thread.
use freemkv_engine.Base.{
  ℕ, ◌≡◌, refl, Bool, true, Option, some, List, [], Bool-cases, inl, inr, ◌==◌, checked_add,
  Option-cases, ◌⊎◌,
}
use freemkv_engine.Ranges.{ByteRange}
use freemkv_engine.Mapfile.Status.{SectorStatus}
use freemkv_engine.Mapfile.State.{
  Chars, Mapfile, set_disc_hash, set_vid_fingerprint, set_raw, set_scope, clear_scope, disown,
  opt_eq, raw_eq,
}
use freemkv_engine.Mapfile.Persist.{
  Env, World, changed, flush, promote, record_range, any_hit, promote_loop, splice,
}
use freemkv_engine.Mapfile.Persist.Atomic.{IsSynced, changed-IsSynced, flush-IsSynced}
use freemkv_engine.Mapfile.Runs.{IsRuns}
use freemkv_engine.Mapfile.Entry.{compute_stats}
use freemkv_engine.Mapfile.Promote.{promote_loop_miss}
use freemkv_engine.Mapfile.Record.{record_range-IsRuns, promote-IsRuns, flush-SameMap}

abbrev on_map : World → Mapfile → World
on_map w m = record w { map = m }

-- One operation on the mapfile, with the events of its write.
pub data Step : World → World → Type 0 where
  records :
      (w : World) (env : Env) (pos size : ℕ) (status : SectorStatus)
      → Step w (record_range env pos size status w).1
  promotes :
      (w : World) (env : Env) (from : List SectorStatus) (to : SectorStatus)
      → Step w (promote env from to w).1
  flushes : (w : World) (env : Env) → Step w (flush env w).1
  sets_disc_hash :
      (w : World) (parse : Chars → Option Chars) (hash : Chars)
      → Step w (record w { map = set_disc_hash parse w.map hash })
  sets_vid_fingerprint :
      (w : World) (fp : List ℕ) → Step w (record w { map = set_vid_fingerprint w.map fp })
  sets_raw : (w : World) (value : Bool) → Step w (record w { map = set_raw w.map value })
  sets_scope :
      (w : World) (ranges : List ByteRange) → Step w (record w { map = set_scope w.map ranges })
  clears_scope : (w : World) → Step w (record w { map = clear_scope w.map })
  disowns : (w : World) → Step w (record w { map = disown w.map })

pub data Reach (w : World) : World → Type 0 where
  here : Reach w w
  next : {u v : World} → Reach w u → Step u v → Reach w v

-- What holds of the world before, and after a splice that is persisted, holds after `record`.
pub record_range_cases {ℓ} :
    (P : World → Type ℓ) (env : Env) (pos size : ℕ) (status : SectorStatus) (w : World)
    → P w
    → ((end : ℕ) → P (changed env (record w { map = splice pos end status w.map })).1)
    → P (record_range env pos size status w).1
unfolding record_range
record_range_cases P env pos size status w refused spliced = elim (Bool-cases (size == 0)) [
  | inl empty ↦ rw empty refused
  | inr more ↦ rw more (elim (Option-cases (checked_add pos size)) [
    | inl wraps ↦ rw (wraps, record_range) refused
    | inr (end, e) ↦ rw e (spliced end)
  ])
]

record_range-IsSynced :
    (env : Env) (pos size : ℕ) (status : SectorStatus) (w : World)
    → IsSynced w
    → IsSynced (record_range env pos size status w).1
record_range-IsSynced env pos size status w s =
    record_range_cases IsSynced env pos size status w s
      λ end. changed-IsSynced env (record w { map = splice pos end status w.map })

promote-IsSynced :
    (env : Env) (from : List SectorStatus) (to : SectorStatus) (w : World)
    → IsRuns 0 w.map.entries
    → IsSynced w
    → IsSynced (promote env from to w).1
unfolding promote
promote-IsSynced env from to w r s = elim (Bool-cases (any_hit from w.map.entries)) [
  | inl hit ↦
      let es = promote_loop from to [] w.map.entries in
      rw hit (
        changed-IsSynced env (record w {
          map = record w.map { entries = es; stats = compute_stats es w.map.total_size };
        }))
  | inr miss ↦ rw (miss, promote_loop_miss from to w.map.entries r miss) s
]

-- What the operations keep: maximal runs, and a clean mapfile that is on disk.
pub record IsConsistent (w : World) : Type 0 where
  pub runs : IsRuns 0 w.map.entries
  pub synced : IsSynced w

-- What a setter may do.
abbrev Sets : World → Mapfile → Type 0
Sets w m = (m ≡ w.map) ⊎ ((m.dirty ≡ true) × (m.entries ≡ w.map.entries))

-- A setter that keeps the entries, and the whole mapfile or makes it dirty.
set-IsConsistent :
    (w : World) (m : Mapfile) → Sets w m → IsConsistent w → IsConsistent (record w { map = m })
set-IsConsistent w m (inl same) c = rw same c
set-IsConsistent w m (inr (dirty, entries)) c = record {
  runs = rw entries c.runs;
  synced = λ clean owned. cc;
}

set_disc_hash_cases :
    (w : World) (parse : Chars → Option Chars) (hash : Chars)
    → Sets w (set_disc_hash parse w.map hash)
unfolding set_disc_hash
set_disc_hash_cases w parse hash = elim (Option-cases (parse hash)) [
  | inl bad ↦ rw (bad, set_disc_hash) (inl refl)
  | inr (h, e) ↦
      rw (e, set_disc_hash)
        (elim (Bool-cases (opt_eq (some h) w.map.disc_hash)) [
          | inl same ↦ rw same (inl refl)
          | inr new ↦ rw new (inr (refl, refl))
        ])
]

set_vid_fingerprint_cases : (w : World) (fp : List ℕ) → Sets w (set_vid_fingerprint w.map fp)
unfolding set_vid_fingerprint
set_vid_fingerprint_cases w fp = elim (Bool-cases (opt_eq w.map.vidfp (some fp))) [
  | inl same ↦ rw same (inl refl)
  | inr new ↦ rw new (inr (refl, refl))
]

set_raw_cases : (w : World) (value : Bool) → Sets w (set_raw w.map value)
unfolding set_raw
set_raw_cases w value = elim (Bool-cases (raw_eq w.map.raw value)) [
  | inl same ↦ rw same (inl refl)
  | inr new ↦ rw new (inr (refl, refl))
]

clear_scope_cases : (w : World) → Sets w (clear_scope w.map)
unfolding clear_scope
clear_scope_cases w = elim (Option-cases w.map.scope) [
  | inl whole ↦ rw whole (inl refl)
  | inr (ranges, e) ↦ rw e (inr (refl, refl))
]

pub Step-IsConsistent : {w v : World} → Step w v → IsConsistent w → IsConsistent v
Step-IsConsistent (records w env pos size status) c = record {
  runs = record_range-IsRuns env pos size status w c.runs;
  synced = record_range-IsSynced env pos size status w c.synced;
}
Step-IsConsistent (promotes w env from to) c = record {
  runs = promote-IsRuns env from to w c.runs;
  synced = promote-IsSynced env from to w c.runs c.synced;
}
Step-IsConsistent (flushes w env) c = record {
  runs = rw ((flush-SameMap env w).same_entries) c.runs;
  synced = (flush-IsSynced env w c.synced).0;
}
Step-IsConsistent (sets_disc_hash w parse hash) c =
    set-IsConsistent w (set_disc_hash parse w.map hash) (set_disc_hash_cases w parse hash) c
Step-IsConsistent (sets_vid_fingerprint w fp) c =
    set-IsConsistent w (set_vid_fingerprint w.map fp) (set_vid_fingerprint_cases w fp) c
Step-IsConsistent (sets_raw w value) c =
    set-IsConsistent w (set_raw w.map value) (set_raw_cases w value) c
Step-IsConsistent (sets_scope w ranges) c =
    set-IsConsistent w (set_scope w.map ranges) (inr (unfold set_scope in (refl, refl))) c
Step-IsConsistent (clears_scope w) c =
    set-IsConsistent w (clear_scope w.map) (clear_scope_cases w) c
Step-IsConsistent (disowns w) c = record {
  runs = unfold disown in c.runs;
  synced = unfold disown in λ clean owned. cc;
}

-- Any sequence of operations keeps the map in maximal runs, and keeps a clean mapfile that is not
-- disowned on disk as it stands in memory, whatever the file system does to each write.
pub Reach-IsConsistent : {w v : World} → Reach w v → IsConsistent w → IsConsistent v
Reach-IsConsistent here c = c
Reach-IsConsistent (next r st) c = Step-IsConsistent st (Reach-IsConsistent r c)
