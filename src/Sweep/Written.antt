-- ===== src/Sweep/Written.antt =====
-- What the sweep's consumer (src/recovery/sweep.rs) writes, against what its mapfile says.
use freemkv_engine.Base.{
  ℕ, ◌+◌, ◌≤◌, ◌<◌, ◌≡◌, refl, ap, sym, subst, ◌∙◌, Bool, true, false, ◌&&◌, Option, some, List,
  arith, ltb, leb, if◌then◌else◌, length, take, Bool-cases, Option-cases, inl, inr, u64_max,
  if_cases,
}
use freemkv_engine.Mapfile.Status.{SectorStatus, non_trimmed, finished}
use freemkv_engine.Mapfile.Runs.{status_at, IsRuns}
use freemkv_engine.Mapfile.State.{Result, ok, err, disown}
use freemkv_engine.Mapfile.Persist.{Env, World, record_range}
use freemkv_engine.Mapfile.Record.{status_at-record_range}
use freemkv_engine.Sweep.Bytes.{is_some, write_bytes_keeps, write_bytes_range, fill_loop_keeps}
use freemkv_engine.Sweep.{
  write_bytes, WorkItem, good, skip_fill, gap_fill, stats_request, SweepSink, FileEvents, map_of,
  with_contents, disowned, recorded, sync_if_due, record_good, apply_good, Filled, filled, stopped,
  write_failed, fill_loop, fill_done, apply_fill, apply_stats, apply_item, apply,
}
use freemkv_engine.Delivery.{Flow, stop}

-- The mapfile says that byte `x` is finished only if the image holds it.
abbrev pub IsWritten : ℕ → SweepSink → Type 0
IsWritten x s = status_at (map_of s).entries x ≡ some finished → is_some (s.image.contents x) ≡ true

pub recorded_world :
    (s : SweepSink) (r : Result (Unit {0}) × World) → (recorded s r).1 ≡ record s { world = r.1 }
recorded_world s (ok _, w) = refl
recorded_world s (err e, w) = refl

disowned_entries : (s : SweepSink) → (map_of (disowned s)).entries ≡ (map_of s).entries
disowned_entries s = unfold disown in refl

finished_after :
    (st : SectorStatus) (inside : Bool) (old : Option SectorStatus)
    → (if inside then some st else old) ≡ some finished
    → (inside ≡ true → st ≡ finished) × (inside ≡ false → old ≡ some finished)
finished_after st inside old h = ground arith

-- A record is written, if its range is where it is recorded as finished.
record-IsWritten :
    (env : Env) (pos len x : ℕ) (st : SectorStatus) (s : SweepSink)
    → IsRuns 0 (map_of s).entries
    → (st ≡ finished → pos ≤ x → x < pos + len → is_some (s.image.contents x) ≡ true)
    → IsWritten x s
    → IsWritten x (recorded s (record_range env pos len st s.world)).1
record-IsWritten env pos len x st s runs range old =
    rw (recorded_world s (record_range env pos len st s.world)) (λ h.
      let inside = leb (pos + len) u64_max && leb pos x && ltb x (pos + len) in
      let back = sym (status_at-record_range env pos len st s.world x runs) ∙ h in
      let cases = finished_after st inside (status_at (map_of s).entries x) back in
      elim (Bool-cases inside) [
        | inl i ↦ range (cases.0 i) (ground (arith, i)) (ground (arith, i))
        | inr o ↦ old (cases.1 o)
      ])

pub sync_keeps :
    (checked : Env) (ev : FileEvents) (s : SweepSink)
    → ((sync_if_due checked ev s).1.image.contents ≡ s.image.contents)
      × ((map_of (sync_if_due checked ev s).1).entries ≡ (map_of s).entries)
unfolding sync_if_due disown
sync_keeps checked ev s = (ground arith, ground arith)

-- The same entries, and contents that keep what was written.
keeps_IsWritten :
    (x : ℕ) (s t : SweepSink)
    → (map_of t).entries ≡ (map_of s).entries
    → (is_some (s.image.contents x) ≡ true → is_some (t.image.contents x) ≡ true)
    → IsWritten x s
    → IsWritten x t
keeps_IsWritten x s t same keeps w h = keeps (w (ap (λ es. status_at es x) (sym same) ∙ h))

record_good-IsWritten :
    (env : Env) (pos len x : ℕ) (r : Result Flow × SweepSink)
    → IsRuns 0 (map_of r.1).entries
    → (pos ≤ x → x < pos + len → is_some (r.1.image.contents x) ≡ true)
    → IsWritten x r.1
    → IsWritten x (record_good env pos len r).1
record_good-IsWritten env pos len x (ok _, s) runs range w =
    record-IsWritten env pos len x finished s runs (λ _. range) w
record_good-IsWritten env pos len x (err e, s) runs range w = w

apply_good-IsWritten :
    (checked env : Env) (ev : FileEvents) (pos : ℕ) (buf : List ℕ) (s : SweepSink) (x : ℕ)
    → IsRuns 0 (map_of s).entries
    → IsWritten x s
    → IsWritten x (apply_good checked env ev pos buf s).1
unfolding apply_good sync_if_due
apply_good-IsWritten checked env ev pos buf s x runs w = elim (Option-cases ev.seek_error) [
  | inr (e, seek) ↦ rw seek (keeps_IsWritten x s (disowned s) (disowned_entries s) (λ h. h) w)
  | inl sought ↦ rw sought (elim (Option-cases ev.write_error) [
    | inr (e, write) ↦
        let c = write_bytes pos (take ev.bytes_left buf) s.image.contents in
        rw write (
          keeps_IsWritten x s (disowned (with_contents s c)) (disowned_entries s)
            (write_bytes_keeps pos (take ev.bytes_left buf) s.image.contents x) w)
    | inl wrote ↦
        let t = with_contents s (write_bytes pos buf s.image.contents) in
        let r = sync_if_due checked ev t in
        let same = sync_keeps checked ev t in
        rw wrote (
          record_good-IsWritten env pos (length buf) x r (subst (IsRuns 0) (sym same.1) runs)
            (λ h i.
              subst (λ c. is_some (c x) ≡ true) (sym same.0)
                (write_bytes_range pos buf s.image.contents x h i))
            (keeps_IsWritten x s r.1 same.1
              (λ h.
                subst (λ c. is_some (c x) ≡ true) (sym same.0)
                  (write_bytes_keeps pos buf s.image.contents x h))
              w))
  ])
]

fill_done-IsWritten :
    (env : Env) (pos len x : ℕ) (s : SweepSink) (f : Filled × (ℕ → Option ℕ))
    → IsRuns 0 (map_of s).entries
    → (is_some (s.image.contents x) ≡ true → is_some (f.1 x) ≡ true)
    → IsWritten x s
    → IsWritten x (fill_done env pos len s f).1
fill_done-IsWritten env pos len x s (filled, c) runs keeps w =
    record-IsWritten env pos len x non_trimmed (with_contents s c) runs (λ h _ _. cc)
      (keeps_IsWritten x s (with_contents s c) refl keeps w)
fill_done-IsWritten env pos len x s (stopped, c) runs keeps w =
    keeps_IsWritten x s (disowned (with_contents s c)) (disowned_entries s) keeps w
fill_done-IsWritten env pos len x s (write_failed e, c) runs keeps w =
    keeps_IsWritten x s (disowned (with_contents s c)) (disowned_entries s) keeps w

apply_fill-IsWritten :
    (env : Env) (ev : FileEvents) (pos len : ℕ) (s : SweepSink) (x : ℕ)
    → IsRuns 0 (map_of s).entries
    → IsWritten x s
    → IsWritten x (apply_fill env ev pos len s).1
unfolding apply_fill
apply_fill-IsWritten env ev pos len s x runs w = elim (Option-cases ev.seek_error) [
  | inr (e, seek) ↦ rw seek (keeps_IsWritten x s (disowned s) (disowned_entries s) (λ h. h) w)
  | inl sought ↦ rw sought (
      fill_done-IsWritten env pos len x s
        (fill_loop len ev.bytes_left ev.chunks pos 0 len s.image.contents) runs
        (fill_loop_keeps len ev.bytes_left ev.chunks pos 0 len s.image.contents x) w)
]

apply_item-IsWritten :
    (checked env : Env) (ev : FileEvents) (item : WorkItem) (s : SweepSink) (x : ℕ)
    → IsRuns 0 (map_of s).entries
    → IsWritten x s
    → IsWritten x (apply_item checked env ev item s).1
apply_item-IsWritten checked env ev (good pos buf) s x r w =
    apply_good-IsWritten checked env ev pos buf s x r w
apply_item-IsWritten checked env ev (skip_fill pos len) s x r w =
    apply_fill-IsWritten env ev pos len s x r w
apply_item-IsWritten checked env ev (gap_fill pos len) s x r w =
    apply_fill-IsWritten env ev pos len s x r w
apply_item-IsWritten checked env ev stats_request s x r w = unfold apply_stats in w

-- The consumer keeps that every byte its mapfile calls finished was written to the image: on every
-- item, and whatever the image file and the mapfile's disk do.
pub apply-IsWritten :
    (checked env : Env) (ev : FileEvents) (item : WorkItem) (s : SweepSink) (x : ℕ)
    → IsRuns 0 (map_of s).entries
    → IsWritten x s
    → IsWritten x (apply checked env ev item s).1
unfolding apply
apply-IsWritten checked env ev item s x runs w =
    if_cases (λ (r : Result Flow × SweepSink). IsWritten x r.1) (map_of s).disowned (ok stop, s)
      (apply_item checked env ev item s) w (apply_item-IsWritten checked env ev item s x runs w)
