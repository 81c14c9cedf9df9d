-- ===== src/Sweep/Durable.antt =====
-- When the mapfile of a sweep's consumer (src/recovery/sweep.rs) reaches the disk, against what is
-- durable in the image.
use freemkv_engine.Base.{
  ℕ, ◌≡◌, refl, ap, sym, subst, ◌∙◌, ◌⊎◌, Bool, true, false, ◌&&◌, Option, none, some, List, arith,
  if◌then◌else◌, length, if_cases, Bool-cases, Option-cases, inl, inr,
}
use freemkv_engine.Mapfile.Status.{finished}
use freemkv_engine.Mapfile.Runs.{status_at}
use freemkv_engine.Mapfile.State.{Result, ok, err}
use freemkv_engine.Mapfile.Persist.{Env, World, record_range, flush, persist_due, changed, splice}
use freemkv_engine.Mapfile.Persist.Atomic.{is_ok}
use freemkv_engine.Mapfile.Record.{flush-SameMap}
use freemkv_engine.Sweep.{
  SweepSink, FileEvents, map_of, synced, closed, close, close_image, sync_image, sync_if_due,
  record_good, apply_good, apply, good, write_bytes, with_contents,
}
use freemkv_engine.Delivery.{Flow, continue, stop}
use freemkv_engine.Sweep.Bytes.{is_some}
use freemkv_engine.Sweep.Written.{IsWritten, recorded_world}

closed_sink :
    (s : SweepSink) (r : Result (Unit {0}) × World) → (closed s r).1 ≡ record s { world = r.1 }
closed_sink s (ok _, w) = refl
closed_sink s (err e, w) = refl

close_image_durable :
    (env : Env) (failure : Option ℕ) (s : SweepSink) (x : ℕ)
    → IsWritten x s
    → s.is_regular ≡ true
    → is_ok (close_image env failure s).0 ≡ true
    → status_at (map_of (close_image env failure s).1).entries x ≡ some finished
    → is_some ((close_image env failure s).1.image.durable x) ≡ true
close_image_durable env none s x w r o =
    rw (closed_sink (synced s) (flush env s.world))
      (λ h. w (ap (λ es. status_at es x) (sym (flush-SameMap env s.world).same_entries) ∙ h))
close_image_durable env (some e) s x w r o = ground arith

-- A close that succeeds on a regular file leaves every byte that the mapfile calls finished durable
-- in the image, if every such byte was written.
pub close_durable :
    (env : Env) (ev : FileEvents) (s : SweepSink) (x : ℕ)
    → IsWritten x s
    → s.is_regular ≡ true
    → is_ok (close env ev s).0 ≡ true
    → status_at (map_of (close env ev s).1).entries x ≡ some finished
    → is_some ((close env ev s).1.image.durable x) ≡ true
unfolding close
close_durable env ev s x = close_image_durable env ev.sync_error s x

record_range_undue :
    (env : Env) (pos len : ℕ) (w : World)
    → persist_due env w.map ≡ false
    → (record_range env pos len finished w).1.disk ≡ w.disk
unfolding record_range changed splice
record_range_undue env pos len w h = ground arith

-- The disk is as it was, or all that the image holds is durable.
abbrev pub IsOrdered : SweepSink → Result Flow × SweepSink → Type 0
IsOrdered s r = (r.1.world.disk ≡ s.world.disk) ⊎ (r.1.image.durable ≡ r.1.image.contents)

record_undue :
    (env : Env) (pos len : ℕ) (s : SweepSink)
    → persist_due env (map_of s) ≡ false
    → IsOrdered s (record_good env pos len (ok continue, s))
record_undue env pos len s h =
    rw (recorded_world s (record_range env pos len finished s.world))
      (inl (record_range_undue env pos len s.world h))

record_synced :
    (env : Env) (pos len : ℕ) (failure : Option ℕ) (s : SweepSink)
    → IsOrdered s (record_good env pos len (sync_image failure s))
record_synced env pos len none s =
    rw (recorded_world (synced s) (record_range env pos len finished s.world)) (inr refl)
record_synced env pos len (some e) s = inl refl

record_good-IsOrdered :
    (checked env : Env) (pos len : ℕ) (ev : FileEvents) (s : SweepSink)
    → s.is_regular ≡ true
    → (persist_due env (map_of s) ≡ true → persist_due checked (map_of s) ≡ true)
    → IsOrdered s (record_good env pos len (sync_if_due checked ev s))
unfolding sync_if_due
record_good-IsOrdered checked env pos len ev s regular clock =
    let outcome : Bool → Result Flow × SweepSink =
      λ b. if b then sync_image ev.sync_error s else (ok continue, s) in
    let due = persist_due checked (map_of s) && s.is_regular in
    elim (Bool-cases due) [
      | inl due_now ↦
          subst (λ b. IsOrdered s (record_good env pos len (outcome b))) (sym due_now)
            (record_synced env pos len ev.sync_error s)
      | inr undue ↦
          subst (λ b. IsOrdered s (record_good env pos len (outcome b))) (sym undue)
            (record_undue env pos len s (ground arith))
    ]

apply_good-IsOrdered :
    (checked env : Env) (ev : FileEvents) (pos : ℕ) (buf : List ℕ) (s : SweepSink)
    → s.is_regular ≡ true
    → (persist_due env (map_of s) ≡ true → persist_due checked (map_of s) ≡ true)
    → IsOrdered s (apply_good checked env ev pos buf s)
unfolding apply_good sync_if_due
apply_good-IsOrdered checked env ev pos buf s regular clock = elim (Option-cases ev.seek_error) [
  | inr (e, seek) ↦ rw seek (inl refl)
  | inl sought ↦ rw sought (elim (Option-cases ev.write_error) [
    | inr (e, write) ↦ rw write (inl refl)
    | inl wrote ↦ rw wrote (
        record_good-IsOrdered checked env pos (length buf) ev
          (with_contents s (write_bytes pos buf s.image.contents)) regular clock)
  ])
]

-- Good data on a regular file, on every branch: the mapfile on disk is as it was, or all that the
-- image holds is durable, so the new text of the mapfile is not ahead of the data. This is where the
-- check before the sync already finds due a save that the record finds due.
pub apply-IsOrdered :
    (checked env : Env) (ev : FileEvents) (pos : ℕ) (buf : List ℕ) (s : SweepSink)
    → s.is_regular ≡ true
    → (persist_due env (map_of s) ≡ true → persist_due checked (map_of s) ≡ true)
    → IsOrdered s (apply checked env ev (good pos buf) s)
unfolding apply
apply-IsOrdered checked env ev pos buf s regular clock =
    if_cases (IsOrdered s) (map_of s).disowned (ok stop, s) (apply_good checked env ev pos buf s)
      (inl refl) (apply_good-IsOrdered checked env ev pos buf s regular clock)
