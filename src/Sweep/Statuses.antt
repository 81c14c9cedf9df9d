-- ===== src/Sweep/Statuses.antt =====
-- What the consumer of a sweep (src/recovery/sweep.rs) leaves in its mapfile.
use freemkv_engine.Base.{
  ℕ, ◌+◌, ◌≡◌, refl, sym, ap, ◌∙◌, subst, Bool, true, false, ◌||◌, Option, none, some, List, arith,
  leb, ◌==◌, if◌then◌else◌, length, u64_max, if_split, Option-cases, inl, inr,
}
use freemkv_engine.Ranges.{in_range}
use freemkv_engine.Mapfile.Status.{SectorStatus, non_trimmed, finished}
use freemkv_engine.Mapfile.Runs.{status_at, IsRuns}
use freemkv_engine.Mapfile.State.{Mapfile, Result, ok, err}
use freemkv_engine.Mapfile.Persist.{Env, World, record_range}
use freemkv_engine.Mapfile.Persist.Atomic.{is_ok}
use freemkv_engine.Mapfile.Record.{status_at-record_range, record_range-IsRuns}
use freemkv_engine.Delivery.{Flow, continue, stop}
use freemkv_engine.Delivery.Statuses
use freemkv_engine.Sweep.{
  WorkItem, good, skip_fill, gap_fill, stats_request, SweepSink, FileEvents, apply_good, map_of,
  recorded, record_good, sync_if_due, with_contents, write_bytes, Filled, filled, stopped,
  write_failed, fill_loop, fill_done, image_write_failed, apply_fill, apply_stats, apply_item,
  apply,
}
use freemkv_engine.Sweep.Written.{sync_keeps}

record_range-fits :
    (env : Env) (pos len : ℕ) (st : SectorStatus) (w : World)
    → is_ok (record_range env pos len st w).0 ≡ true
    → ((len == 0) || leb (pos + len) u64_max) ≡ true
unfolding record_range
record_range-fits env pos len st w h = ground arith

-- After an operation that went through: maximal runs, the status on the range, and no other change.
abbrev pub IsMarked : SectorStatus → ℕ → ℕ → ℕ → Mapfile → Bool → Mapfile → Type 0
IsMarked st pos len x m through m' =
    through ≡ true
    → IsRuns 0 m'.entries
      × (status_at m'.entries x
          ≡ (if in_range (pos, len) x then some st else status_at m.entries x))

pub record_range-IsMarked :
    (env : Env) (pos len : ℕ) (st : SectorStatus) (w : World) (x : ℕ)
    → IsRuns 0 w.map.entries
    → IsMarked st pos len x w.map
        (is_ok (record_range env pos len st w).0)
        (record_range env pos len st w).1.map
record_range-IsMarked env pos len st w x r h = (
  record_range-IsRuns env pos len st w r,
  status_at-record_range env pos len st w x r
      ∙ ground (arith, record_range-fits env pos len st w h),
)

recorded-IsMarked :
    (st : SectorStatus) (pos len x : ℕ) (m : Mapfile) (s : SweepSink)
    (r : Result (Unit {0}) × World)
    → IsMarked st pos len x m (is_ok r.0) r.1.map
    → IsMarked st pos len x m (is_ok (recorded s r).0) (map_of (recorded s r).1)
recorded-IsMarked st pos len x m s (ok _, w) i = i
recorded-IsMarked st pos len x m s (err e, w) i = λ h. cc

record_good-IsMarked :
    (env : Env) (pos len x : ℕ) (m : Mapfile) (r : Result Flow × SweepSink)
    → (map_of r.1).entries ≡ m.entries
    → IsRuns 0 m.entries
    → IsMarked finished pos len x m
        (is_ok (record_good env pos len r).0)
        (map_of (record_good env pos len r).1)
record_good-IsMarked env pos len x m (ok _, s) e runs h =
    let set =
      recorded-IsMarked finished pos len x s.world.map s (record_range env pos len finished s.world)
        (record_range-IsMarked env pos len finished s.world x (subst (IsRuns 0) (sym e) runs)) h in
    (set.0, set.1 ∙ ap (λ es. if in_range (pos, len) x then some finished else status_at es x) e)
record_good-IsMarked env pos len x m (err e, s) same runs h = cc

-- The arm for good data, which the patch consumer has too.
pub apply_good-IsMarked :
    (checked env : Env) (ev : FileEvents) (pos : ℕ) (buf : List ℕ) (s : SweepSink) (x : ℕ)
    → IsRuns 0 (map_of s).entries
    → IsMarked finished pos
        (length buf)
        x
        (map_of s)
        (is_ok (apply_good checked env ev pos buf s).0)
        (map_of (apply_good checked env ev pos buf s).1)
unfolding apply_good sync_if_due
apply_good-IsMarked checked env ev pos buf s x r = elim (Option-cases ev.seek_error) [
  | inr (e, seek) ↦ rw seek (λ h. cc)
  | inl sought ↦ rw sought (elim (Option-cases ev.write_error) [
    | inr (e, write) ↦ rw write (λ h. cc)
    | inl wrote ↦
        let t = with_contents s (write_bytes pos buf s.image.contents) in
        rw wrote (
          record_good-IsMarked env pos (length buf) x (map_of s) (sync_if_due checked ev t)
            (sync_keeps checked ev t).1 r)
  ])
]

-- The bytes that an item is about, and the status that it gives to them.
abbrev pub item_covers : WorkItem → ℕ → Bool
item_covers (good pos buf) x = in_range (pos, length buf) x
item_covers (skip_fill pos len) x = in_range (pos, len) x
item_covers (gap_fill pos len) x = in_range (pos, len) x
item_covers stats_request x = false

abbrev pub status_of : WorkItem → SectorStatus
status_of (good pos buf) = finished
status_of _ = non_trimmed

pub status_of-is_settled : (i : WorkItem) → Statuses.is_settled (some (status_of i)) ≡ true
status_of-is_settled (good pos buf) = refl
status_of-is_settled (skip_fill pos len) = refl
status_of-is_settled (gap_fill pos len) = refl
status_of-is_settled stats_request = refl

abbrev pub IsApplied : WorkItem → ℕ → SweepSink → Result Flow × SweepSink → Type 0
IsApplied = Statuses.IsApplied (λ (s : SweepSink). (map_of s).entries) item_covers status_of

marked-IsApplied :
    (item : WorkItem) (pos len x : ℕ) (s : SweepSink) (r : Result Flow × SweepSink)
    → item_covers item x ≡ in_range (pos, len) x
    → IsMarked (status_of item) pos len x (map_of s) (is_ok r.0) (map_of r.1)
    → IsApplied item x s r
marked-IsApplied item pos len x s (ok continue, s') c m h = ground (arith, m refl)
marked-IsApplied item pos len x s (ok stop, s') c m h = cc
marked-IsApplied item pos len x s (err e, s') c m h = cc

fill_done-IsApplied :
    (env : Env) (pos len x : ℕ) (item : WorkItem) (s : SweepSink) (f : Filled × (ℕ → Option ℕ))
    → IsRuns 0 (map_of s).entries
    → item_covers item x ≡ in_range (pos, len) x
    → status_of item ≡ non_trimmed
    → IsApplied item x s (fill_done env pos len s f)
fill_done-IsApplied env pos len x item s (filled, c) r i e =
    let t = with_contents s c in
    let went = recorded t (record_range env pos len non_trimmed t.world) in
    marked-IsApplied item pos len x s went i (
      subst (λ st. IsMarked st pos len x (map_of s) (is_ok went.0) (map_of went.1)) (sym e)
        (recorded-IsMarked non_trimmed pos len x (map_of s) t
          (record_range env pos len non_trimmed t.world)
          (record_range-IsMarked env pos len non_trimmed t.world x r)))
fill_done-IsApplied env pos len x item s (stopped, c) r i e = λ h. cc
fill_done-IsApplied env pos len x item s (write_failed w, c) r i e = λ h. cc

apply_fill-IsApplied :
    (env : Env) (ev : FileEvents) (pos len x : ℕ) (item : WorkItem) (s : SweepSink)
    → IsRuns 0 (map_of s).entries
    → item_covers item x ≡ in_range (pos, len) x
    → status_of item ≡ non_trimmed
    → IsApplied item x s (apply_fill env ev pos len s)
unfolding apply_fill
apply_fill-IsApplied env ev pos len x item s r i e =
    let fill = fill_loop len ev.bytes_left ev.chunks pos 0 len s.image.contents in
    elim ev.seek_error
      as (λ (error : Option ℕ).
        IsApplied item x s
          (elim error [ some e ↦ image_write_failed e s | none ↦ fill_done env pos len s fill ])) [
            | some failed ↦ λ h. cc
            | none ↦ fill_done-IsApplied env pos len x item s fill r i e
          ]

apply_item-IsApplied :
    (checked env : Env) (ev : FileEvents) (item : WorkItem) (s : SweepSink) (x : ℕ)
    → IsRuns 0 (map_of s).entries
    → IsApplied item x s (apply_item checked env ev item s)
apply_item-IsApplied checked env ev (good pos buf) s x r =
    marked-IsApplied (good pos buf) pos (length buf) x s (apply_good checked env ev pos buf s) refl
      (apply_good-IsMarked checked env ev pos buf s x r)
apply_item-IsApplied checked env ev (skip_fill pos len) s x r =
    apply_fill-IsApplied env ev pos len x (skip_fill pos len) s r refl refl
apply_item-IsApplied checked env ev (gap_fill pos len) s x r =
    apply_fill-IsApplied env ev pos len x (gap_fill pos len) s r refl refl
apply_item-IsApplied checked env ev stats_request s x r = unfold apply_stats in λ h. (r, refl)

pub apply-IsApplied :
    (checked env : Env) (ev : FileEvents) (item : WorkItem) (s : SweepSink) (x : ℕ)
    → IsRuns 0 (map_of s).entries
    → IsApplied item x s (apply checked env ev item s)
unfolding apply
apply-IsApplied checked env ev item s x r =
    if_split (IsApplied item x s) (map_of s).disowned (ok stop, s)
      (apply_item checked env ev item s) (λ _ h. cc)
      (λ _. apply_item-IsApplied checked env ev item s x r)
