-- ===== src/Copy/Complete.antt =====
-- When the copy dispatch (src/recovery/mod.rs) reports a complete copy, and when it works on the
-- image that is there.
use freemkv_engine.Base.{
  ℕ, ◌+◌, ◌≤◌, ◌<◌, ◌≡◌, refl, ap, sym, ◌∙◌, Bool, true, false, none, some, List, [], ◌∷◌, arith,
  ◌==◌, length, u32_max,
}
use freemkv_engine.Mapfile.Status.{finished}
use freemkv_engine.Mapfile.Entry.{MapEntry, MapStats}
use freemkv_engine.Mapfile.Runs.{status_at, IsSorted, IsRuns}
use freemkv_engine.Mapfile.Tally.{
  bytes_where, plus, is_pending, is_nontried, is_retryable, is_unreadable,
}
use freemkv_engine.Mapfile.Splice.Stats.{compute_stats-plus}
use freemkv_engine.Mapfile.Splice.Window.{IsRuns-IsSorted}
use freemkv_engine.Mapfile.Fill.{map_end}
use freemkv_engine.Mapfile.Fill.Gaps.{IsGapless, end_from}
use freemkv_engine.Mapfile.Fill.Loaded.{map_end-runs}
use freemkv_engine.Mapfile.State.{Mapfile, Error, Result, ok, err}
use freemkv_engine.Mapfile.Persist.{Disk, Env}
use freemkv_engine.Mapfile.Record.{IsCounted}
use freemkv_engine.Copy.{
  Request, CopyResult, done, new_result, image_intact, map_stats, by_stats, by_map, by_widened,
  widen, stats_in, by_identity, by_load, copy_titled,
}
use freemkv_engine.Copy.Widen.{widen-Widened}

pending_sum :
    (es : List MapEntry)
    → bytes_where is_pending es ≡ bytes_where is_nontried es + bytes_where is_retryable es
unfolding bytes_where
pending_sum [] = refl
pending_sum (e ∷ es) = ground (arith, pending_sum es)

-- A gapless map with no pending and no unreadable byte is finished throughout.
all_finished :
    (lo x : ℕ) (es : List MapEntry)
    → IsSorted lo es
    → IsGapless lo es
    → bytes_where is_pending es ≡ 0
    → bytes_where is_unreadable es ≡ 0
    → lo ≤ x
    → x < end_from lo es
    → status_at es x ≡ some finished
unfolding bytes_where status_at
all_finished lo x [] s g p u h i = ground arith
all_finished lo x (e ∷ es) s g p u h i = ground (arith, all_finished (e.pos + e.size) x es s.2 g.1)

-- A result that says complete comes of statistics with nothing pending or unreadable, an intact
-- image and a map that covers the disc.
by_stats-complete :
    (req : Request) (s : MapStats) (covers_disc intact : Bool) (r : CopyResult)
    → s.bytes_pending ≡ s.bytes_nontried + s.bytes_retryable
    → by_stats req s covers_disc intact ≡ done r
    → r.complete ≡ true
    → (covers_disc ≡ true) × (intact ≡ true) × (s.bytes_pending ≡ 0) × (s.bytes_unreadable ≡ 0)
unfolding by_stats new_result
by_stats-complete req s covers_disc intact r p h c = ground arith

map_stats_unscoped : (n : Mapfile) → n.scope ≡ none → map_stats n ≡ n.stats
unfolding map_stats
map_stats_unscoped n h = ap (λ o. stats_in o n) h

-- What a mapfile for a disc says of a result that the dispatch gives for it.
by_map-complete :
    (req : Request) (n : Mapfile) (r : CopyResult)
    → n.scope ≡ none
    → n.stats.bytes_pending ≡ n.stats.bytes_nontried + n.stats.bytes_retryable
    → by_map req n ≡ done r
    → r.complete ≡ true
    → (n.total_size ≡ req.capacity_bytes)
      × (image_intact req.image req.capacity_bytes ≡ some true)
      × (n.stats.bytes_pending ≡ 0)
      × (n.stats.bytes_unreadable ≡ 0)
unfolding by_map
by_map-complete req n r u p h c = ground (
  arith,
  map_stats_unscoped n u,
  by_stats-complete req n.stats (n.total_size == req.capacity_bytes) true r p,
  by_stats-complete req n.stats (n.total_size == req.capacity_bytes) false r p,
)

-- A result of the dispatch comes of the decision for the widened mapfile.
widened_done :
    (req : Request) (wd : Result Mapfile × Disk) (r : CopyResult) (d : Disk)
    → by_widened req wd ≡ (done r, d)
    → (n : Mapfile) × (wd.0 ≡ ok n) × (by_map req n ≡ done r)
widened_done req (ok n, e) r d h = (n, refl, ap (λ t. t.0) h)
widened_done req (err n, e) r d h = cc

copy_titled_done :
    (is_invalid_data : Error → Bool) (req : Request) (env drop : Env) (m : Mapfile) (d d' : Disk)
    (r : CopyResult)
    → copy_titled is_invalid_data req env drop (some (ok m)) d ≡ (done r, d')
    → by_widened req (widen env drop m d) ≡ (done r, d')
unfolding copy_titled by_load by_identity
copy_titled_done is_invalid_data req env drop m d d' r h = ground arith

counted_zero :
    (m : Mapfile)
    → IsRuns 0 m.entries
    → IsCounted m
    → length m.entries ≤ u32_max
    → (m.stats.bytes_pending ≡ bytes_where is_pending m.entries)
      × (m.stats.bytes_unreadable ≡ bytes_where is_unreadable m.entries)
      × (m.stats.bytes_pending ≡ m.stats.bytes_nontried + m.stats.bytes_retryable)
unfolding plus
counted_zero m r c l =
    let sums = c ∙ compute_stats-plus m.total_size m.entries (IsRuns-IsSorted 0 m.entries r) l in
    rw sums (omega (arith, pending_sum m.entries))

-- A copy that the dispatch reports as complete at once is: for a loaded mapfile (gapless maximal
-- runs, counted), the image is intact and every byte of the disc is finished.
pub copy_titled-complete :
    (is_invalid_data : Error → Bool) (req : Request) (env drop : Env) (m : Mapfile) (d d' : Disk)
    (r : CopyResult) (x : ℕ)
    → IsRuns 0 m.entries
    → IsGapless 0 m.entries
    → IsCounted m
    → m.total_size ≡ map_end m.entries
    → length m.entries ≤ u32_max
    → copy_titled is_invalid_data req env drop (some (ok m)) d ≡ (done r, d')
    → r.complete ≡ true
    → x < req.capacity_bytes
    → (status_at m.entries x ≡ some finished)
      × (image_intact req.image req.capacity_bytes ≡ some true)
copy_titled-complete is_invalid_data req env drop m d d' r x runs gapless counted total room h c b =
    let (n, widened, decided) =
      widened_done req (widen env drop m d) r d'
        (copy_titled_done is_invalid_data req env drop m d d' r h) in
    let w = widen-Widened env drop m n d widened in
    let zero = counted_zero m runs counted room in
    let sorted = IsRuns-IsSorted 0 m.entries runs in
    let facts = by_map-complete req n r w.unscoped (rw w.same_stats zero.2) decided c in
    (
      all_finished 0 x m.entries sorted gapless
          (sym zero.0 ∙ ap (λ s. s.bytes_pending) (sym w.same_stats) ∙ facts.2)
          (sym zero.1 ∙ ap (λ s. s.bytes_unreadable) (sym w.same_stats) ∙ facts.3) (omega arith)
          (omega (arith, facts.0, w.same_total, total, map_end-runs m.entries sorted)),
      facts.1,
    )
