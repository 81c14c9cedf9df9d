-- ===== src/Mapfile/Splice/Stats.antt =====
-- The incremental statistics of `Mapfile::splice` against `compute_stats`, and the growth of the map.
use freemkv_engine.Base.{
  ℕ, ◌+◌, ◌≤◌, ◌<◌, ◌≡◌, refl, sym, ap, ◌∙◌, Bool, List, [], ◌∷◌, ◌++◌, arith, u64_max, u32_max,
  length, take, drop, dec_lt,
}
use native.Mathlib.Nat.{suc-sub-suc, sub-zero, le_trans}
use freemkv_engine.Mapfile.Status.{SectorStatus}
use freemkv_engine.Mapfile.Entry.{MapEntry, MapStats, zero_stats, compute_stats}
use freemkv_engine.Mapfile.Runs.{IsSorted, IsRuns, cons_coalesced, coalesce}
use freemkv_engine.Mapfile.Tally.{
  is_good, is_unreadable, is_pending, is_nontried, is_retryable, plus, plus_middle, Fits,
  foldl-tally, foldl-tally_out, bytes_where_fits, runs_where-le-length,
}
use freemkv_engine.Mapfile.Splice.{
  window_pieces, window_lo, window_hi, window, merged, splice_entries, splice_stats,
}
use freemkv_engine.Mapfile.Splice.Window.{
  IsRuns-IsSorted, window_hi_in, window_lo_in, window_lo_out, front-append-rest,
}
use freemkv_engine.Mapfile.Splice.Pieces.{
  pieces, before, cut_left, covered, cut_both, cut_right, behind, piece_view,
}
use freemkv_engine.Mapfile.Splice.Rebuild.{splice-eq-rebuild, splice-IsRuns}

-- The sums of a map of maximal runs fit their fields.
runs-Fits :
    (total : ℕ) (es : List MapEntry)
    → IsSorted 0 es
    → length es ≤ u32_max
    → Fits (plus (zero_stats total) es)
unfolding plus
runs-Fits total es s h =
    let sum_fits = λ (test : SectorStatus → Bool). bytes_where_fits test 0 es (omega arith) s in
    omega (
      arith,
      sum_fits is_good,
      sum_fits is_unreadable,
      sum_fits is_pending,
      sum_fits is_nontried,
      sum_fits is_retryable,
      runs_where-le-length is_unreadable es,
    )

pub compute_stats-plus :
    (total : ℕ) (es : List MapEntry)
    → IsSorted 0 es
    → length es ≤ u32_max
    → compute_stats es total ≡ plus (zero_stats total) es
unfolding compute_stats
compute_stats-plus total es s h = foldl-tally (zero_stats total) es (runs-Fits total es s h)

-- The two partition points cut the map in three.
window-append :
    (pos end lo : ℕ) (es : List MapEntry)
    → pos < end
    → IsSorted lo es
    → take (window_lo pos es) es ++ window pos end es ++ drop (window_hi end es) es ≡ es
window-append pos end lo [] h s = refl
window-append pos end lo (e ∷ es) h s = elim (dec_lt (e.pos + e.size) pos) [
  | yes i ↦
      rw (window_lo_in pos e es s.1 i, window_hi_in end e es (omega arith), suc-sub-suc)
        (ap (λ t. e ∷ t) (window-append pos end (e.pos + e.size) es h s.2))
  | no i ↦ rw (window_lo_out pos e es s.1 (omega arith), sub-zero) (front-append-rest end (e ∷ es))
]

length-coalesce-le : (es : List MapEntry) → length (coalesce es) ≤ length es
unfolding coalesce cons_coalesced
length-coalesce-le [] = omega arith
length-coalesce-le (e ∷ es) = ground (arith, length-coalesce-le es)

module _ (pos end : ℕ) (status : SectorStatus) (nonempty : pos < end) (fits : end ≤ u64_max) where
  length-pieces-le :
      (lo : ℕ) (es : List MapEntry)
      → IsSorted lo es
      → length (pieces pos end status nonempty fits es) ≤ length es + 2
  length-pieces-le lo [] s = unfold window_pieces in omega arith
  length-pieces-le lo (e ∷ es) s = elim (piece_view pos end status nonempty fits e es s.1 s.2) [
    | before i eq ↦ rw eq (omega (arith, length-pieces-le (e.pos + e.size) es s.2))
    | cut_left i j k eq ↦ rw eq (omega (arith, length-pieces-le (e.pos + e.size) es s.2))
    | covered i j eq ↦ rw eq (omega (arith, length-pieces-le (e.pos + e.size) es s.2))
    | cut_both i j eq ↦ rw eq (omega arith)
    | cut_right i j k eq ↦ rw eq (omega arith)
    | behind i eq ↦ rw eq (omega arith)
  ]

  -- On a map of maximal runs, one splice of a range within u64 adds at most two entries.
  pub length-splice-le :
      (es : List MapEntry) → IsRuns 0 es → length (splice_entries pos end status es) ≤ length es + 2
  length-splice-le es r = rw (splice-eq-rebuild pos end status nonempty fits 0 es r) (
      omega (
        arith,
        length-coalesce-le (pieces pos end status nonempty fits es),
        length-pieces-le 0 es (IsRuns-IsSorted 0 es r),
      ))

  -- The incremental statistics are those of a full recount, on a map of maximal runs that has room
  -- for two more entries in a u32.
  pub splice_stats-eq-compute_stats :
      (total : ℕ) (es : List MapEntry)
      → IsRuns 0 es
      → length es + 2 ≤ u32_max
      → splice_stats pos end status es (compute_stats es total)
        ≡ compute_stats (splice_entries pos end status es) total
  unfolding splice_stats splice_entries
  splice_stats-eq-compute_stats total es r h =
      rw (before_eq, foldl-tally_out (plus zero (left ++ right)) cut)
        (foldl-tally (plus zero (left ++ right)) new (rw (plus_middle zero left new right) new_fits)
          ∙ plus_middle zero left new right
          ∙ sym (compute_stats-plus total (left ++ new ++ right) sorted room))
    where
      zero : MapStats
      zero = zero_stats total

      left : List MapEntry
      left = take (window_lo pos es) es

      right : List MapEntry
      right = drop (window_hi end es) es

      cut : List MapEntry
      cut = window pos end es

      new : List MapEntry
      new = merged pos end status es

      sorted : IsSorted 0 (splice_entries pos end status es)
      sorted =
          IsRuns-IsSorted 0 (splice_entries pos end status es)
            (splice-IsRuns pos end status nonempty fits es r)

      room : length (splice_entries pos end status es) ≤ u32_max
      room = le_trans (length-splice-le es r) h

      new_fits : Fits (plus zero (splice_entries pos end status es))
      new_fits = runs-Fits total (splice_entries pos end status es) sorted room

      before_eq : compute_stats es total ≡ plus (plus zero (left ++ right)) cut
      before_eq =
          compute_stats-plus total es (IsRuns-IsSorted 0 es r) (omega arith)
          ∙ ap (plus zero) (sym (window-append pos end 0 es nonempty (IsRuns-IsSorted 0 es r)))
          ∙ sym (plus_middle zero left cut right)
