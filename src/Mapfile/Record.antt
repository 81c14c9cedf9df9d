-- ===== src/Mapfile/Record.antt =====
-- `Mapfile::record` and `Mapfile::promote` of src/recovery/mapfile.rs: what they do to the map, with
-- the incremental statistics, on every branch.
use freemkv_engine.Base.{
  ℕ, ◌+◌, ◌≤◌, ◌<◌, ◌≡◌, refl, ◌&&◌, some, List, arith, ltb, leb, if◌then◌else◌, u64_max, u32_max,
  length, dec_le, Bool-cases, inl, inr, le→leb, gt→leb, ap, ap₂, sym, [], ◌∙◌,
}
use freemkv_engine.Mapfile.Status.{SectorStatus}
use freemkv_engine.Mapfile.Entry.{compute_stats}
use freemkv_engine.Mapfile.Runs.{status_at, IsRuns}
use freemkv_engine.Mapfile.State.{Mapfile, ok, err, invalid, range}
use freemkv_engine.Mapfile.Persist.{
  Env, World, changed, splice, promote, promote_loop, any_hit, record_range, flush,
}
use freemkv_engine.Mapfile.Splice.{splice_entries, splice_stats}
use freemkv_engine.Mapfile.Splice.Rebuild.{splice-IsRuns, status_at-splice}
use freemkv_engine.Mapfile.Splice.Stats.{splice_stats-eq-compute_stats}
use freemkv_engine.Mapfile.Promote.{
  promote_loop-IsRuns, status_at-promote_loop, promote_loop_miss, promote_status,
}

-- The statistics are those of a recount.
abbrev pub IsCounted : Mapfile → Type 0
IsCounted m = m.stats ≡ compute_stats m.entries m.total_size

-- The map part that no write touches.
pub record SameMap (m n : Mapfile) : Type 0 where
  pub same_entries : n.entries ≡ m.entries
  pub same_stats : n.stats ≡ m.stats
  pub same_total : n.total_size ≡ m.total_size

pub changed-SameMap : (env : Env) (w : World) → SameMap w.map (changed env w).1.map
unfolding changed
changed-SameMap env w = record {
  same_entries = ground arith;
  same_stats = ground arith;
  same_total = ground arith;
}

pub flush-SameMap : (env : Env) (w : World) → SameMap w.map (flush env w).1.map
unfolding flush
flush-SameMap env w = record {
  same_entries = ground arith;
  same_stats = ground arith;
  same_total = ground arith;
}

module _ (env : Env) (pos size : ℕ) (status : SectorStatus) (w : World) where
  -- A range that would wrap u64 is refused, and nothing changes.
  pub record_range_wraps :
      0 < size
      → u64_max < pos + size
      → record_range env pos size status w ≡ (err (invalid range), w)
  unfolding record_range
  record_range_wraps h i = ground arith

  record_range_splices :
      0 < size
      → pos + size ≤ u64_max
      → record_range env pos size status w
        ≡ changed env (record w { map = splice pos (pos + size) status w.map })
  unfolding record_range
  record_range_splices h i = ground arith

  record_range_empty : size ≡ 0 → record_range env pos size status w ≡ (ok tt, w)
  unfolding record_range
  record_range_empty h = ground arith

  record_range_entries :
      0 < size
      → pos + size ≤ u64_max
      → (record_range env pos size status w).1.map.entries
        ≡ splice_entries pos (pos + size) status w.map.entries
  unfolding splice
  record_range_entries h i =
      rw (record_range_splices h i) (
        (changed-SameMap env
          (record w { map = splice pos (pos + size) status w.map })).same_entries)

  -- `record` keeps the maximal-run invariant, on every branch.
  pub record_range-IsRuns :
      IsRuns 0 w.map.entries → IsRuns 0 (record_range env pos size status w).1.map.entries
  record_range-IsRuns r = elim (dec_le size 0) [
    | yes z ↦ rw (record_range_empty (omega arith)) r
    | no p ↦ elim (dec_le (pos + size) u64_max) [
      | yes f ↦
          rw (record_range_entries (omega arith) f)
            (splice-IsRuns pos (pos + size) status (omega arith) f w.map.entries r)
      | no o ↦ rw (record_range_wraps (omega arith) (omega arith)) r
    ]
  ]

  -- On a map of maximal runs, `record` gives the new status to the bytes of its range and leaves
  -- every other byte's; an empty range and one that would wrap change no byte.
  pub status_at-record_range :
      (x : ℕ)
      → IsRuns 0 w.map.entries
      → status_at (record_range env pos size status w).1.map.entries x ≡ (
          if leb (pos + size) u64_max && leb pos x && ltb x (pos + size)
          then some status
          else status_at w.map.entries x)
  status_at-record_range x r = elim (dec_le size 0) [
    | yes z ↦ rw (record_range_empty (omega arith)) (ground arith)
    | no p ↦ elim (dec_le (pos + size) u64_max) [
      | yes f ↦
          rw (record_range_entries (omega arith) f, le→leb (pos + size) u64_max f)
            (status_at-splice pos (pos + size) status (omega arith) f w.map.entries x r)
      | no o ↦
          rw
            (
              record_range_wraps (omega arith) (omega arith),
              gt→leb (pos + size) u64_max (omega arith),
            )
            refl
    ]
  ]

  IsCounted-splice :
      0 < size
      → pos + size ≤ u64_max
      → IsRuns 0 w.map.entries
      → length w.map.entries + 2 ≤ u32_max
      → IsCounted w.map
      → IsCounted (splice pos (pos + size) status w.map)
  unfolding splice
  IsCounted-splice p f r h c =
      ap (splice_stats pos (pos + size) status w.map.entries) c
      ∙ splice_stats-eq-compute_stats pos (pos + size) status (omega arith) f w.map.total_size
          w.map.entries r h

  -- From a map of maximal runs whose statistics are those of a recount, with room for two more runs
  -- in a u32, `record` leaves the statistics of a recount, on every branch.
  pub record_range-IsCounted :
      IsRuns 0 w.map.entries
      → length w.map.entries + 2 ≤ u32_max
      → IsCounted w.map
      → IsCounted (record_range env pos size status w).1.map
  record_range-IsCounted r h c = elim (dec_le size 0) [
    | yes z ↦ rw (record_range_empty (omega arith)) c
    | no p ↦ elim (dec_le (pos + size) u64_max) [
      | yes f ↦
          let spliced = record w { map = splice pos (pos + size) status w.map } in
          let same = changed-SameMap env spliced in
          rw (record_range_splices (omega arith) f) (
            same.same_stats
            ∙ IsCounted-splice (omega arith) f r h c
            ∙ sym (ap₂ compute_stats same.same_entries same.same_total))
      | no o ↦ rw (record_range_wraps (omega arith) (omega arith)) c
    ]
  ]

module _ (env : Env) (from : List SectorStatus) (to : SectorStatus) (w : World) where
  promote_entries : (promote env from to w).1.map.entries ≡ promote_loop from to [] w.map.entries
  unfolding promote
  promote_entries = ground arith

  pub promote-IsRuns : IsRuns 0 w.map.entries → IsRuns 0 (promote env from to w).1.map.entries
  promote-IsRuns r = rw promote_entries (promote_loop-IsRuns from to w.map.entries r)

  -- On a map of maximal runs, `promote` re-marks exactly the bytes whose status is in `from`.
  pub status_at-promote :
      (x : ℕ)
      → IsRuns 0 w.map.entries
      → status_at (promote env from to w).1.map.entries x
        ≡ promote_status from to (status_at w.map.entries x)
  status_at-promote x r = rw promote_entries (status_at-promote_loop from to w.map.entries x r)

  -- From a map of maximal runs whose statistics are those of a recount, `promote` leaves the
  -- statistics of a recount.
  pub promote-IsCounted :
      IsRuns 0 w.map.entries → IsCounted w.map → IsCounted (promote env from to w).1.map
  unfolding promote
  promote-IsCounted r c = elim (Bool-cases (any_hit from w.map.entries)) [
    | inl hit ↦
        let es = promote_loop from to [] w.map.entries in
        let recounted = record w {
          map = record w.map { entries = es; stats = compute_stats es w.map.total_size };
        } in
        let same = changed-SameMap env recounted in
        rw hit (same.same_stats ∙ sym (ap₂ compute_stats same.same_entries same.same_total))
    | inr miss ↦ rw miss (
        c
        ∙ ap (λ t. compute_stats t w.map.total_size)
            (sym (promote_loop_miss from to w.map.entries r miss)))
  ]
