-- ===== src/Mapfile/Persist/Disowned.antt =====
-- A disowned mapfile (`MapfileDisown`) of src/recovery/mapfile.rs never touches the disk again.
use freemkv_engine.Base.{ℕ, ◌≡◌, refl, true, ◌∙◌, arith}
use freemkv_engine.Mapfile.Status.{SectorStatus}
use freemkv_engine.Mapfile.State.{
  set_disc_hash, set_vid_fingerprint, set_raw, set_scope, clear_scope, disown,
}
use freemkv_engine.Mapfile.Persist.{Env, World, changed, flush, promote, record_range, splice}
use freemkv_engine.Mapfile.Persist.Steps.{
  Step, records, promotes, flushes, sets_disc_hash, sets_vid_fingerprint, sets_raw, sets_scope,
  clears_scope, disowns, Reach, here, next, record_range_cases,
}

-- The disk is as it was, and the mapfile is disowned.
pub record IsFrozen (w v : World) : Type 0 where
  pub same_disk : v.disk ≡ w.disk
  pub still_disowned : v.map.disowned ≡ true

changed-IsFrozen : (env : Env) (w : World) → w.map.disowned ≡ true → IsFrozen w (changed env w).1
unfolding changed
changed-IsFrozen env w h = record { same_disk = ground arith; still_disowned = ground arith }

flush-IsFrozen : (env : Env) (w : World) → w.map.disowned ≡ true → IsFrozen w (flush env w).1
unfolding flush
flush-IsFrozen env w h = record { same_disk = ground arith; still_disowned = ground arith }

record_range-IsFrozen :
    (env : Env) (pos size : ℕ) (status : SectorStatus) (w : World)
    → w.map.disowned ≡ true
    → IsFrozen w (record_range env pos size status w).1
record_range-IsFrozen env pos size status w h =
    record_range_cases (IsFrozen w) env pos size status w
      (record { same_disk = refl; still_disowned = h })
      λ end.
        let frozen =
          changed-IsFrozen env (record w { map = splice pos end status w.map }) (spliced end) in
        record { same_disk = frozen.same_disk; still_disowned = frozen.still_disowned }
  where
    spliced : (end : ℕ) → (splice pos end status w.map).disowned ≡ true
    spliced end = unfold splice in h

Step-IsFrozen : {w v : World} → Step w v → w.map.disowned ≡ true → IsFrozen w v
Step-IsFrozen (records w env pos size status) h = record_range-IsFrozen env pos size status w h
Step-IsFrozen (promotes w env from to) h =
    unfold promote in record { same_disk = ground arith; still_disowned = ground arith }
Step-IsFrozen (flushes w env) h = flush-IsFrozen env w h
Step-IsFrozen (sets_disc_hash w parse hash) h = record {
  same_disk = refl;
  still_disowned = unfold set_disc_hash in ground arith;
}
Step-IsFrozen (sets_vid_fingerprint w fp) h = record {
  same_disk = refl;
  still_disowned = unfold set_vid_fingerprint in ground arith;
}
Step-IsFrozen (sets_raw w value) h = record {
  same_disk = refl;
  still_disowned = unfold set_raw in ground arith;
}
Step-IsFrozen (sets_scope w ranges) h = record {
  same_disk = refl;
  still_disowned = unfold set_scope in h;
}
Step-IsFrozen (clears_scope w) h = record {
  same_disk = refl;
  still_disowned = unfold clear_scope in ground arith;
}
Step-IsFrozen (disowns w) h = record { same_disk = refl; still_disowned = unfold disown in refl }

-- Any sequence of operations on a disowned mapfile leaves the disk as it was, and the mapfile
-- disowned.
pub Reach-IsFrozen : {w v : World} → Reach w v → w.map.disowned ≡ true → IsFrozen w v
Reach-IsFrozen here h = record { same_disk = refl; still_disowned = h }
Reach-IsFrozen (next r st) h =
    let before = Reach-IsFrozen r h in
    let after = Step-IsFrozen st before.still_disowned in
    record { same_disk = after.same_disk ∙ before.same_disk; still_disowned = after.still_disowned }
