-- ===== src/Mapfile/Splice/Rebuild.antt =====
-- `Mapfile::splice` against the full rebuild of the map that its comment names, and what follows:
-- the status of every byte, and the maximal-run invariant.
use freemkv_engine.Base.{
  ℕ, ◌+◌, ◌≤◌, ◌<◌, ◌≡◌, refl, sym, ap, ◌∙◌, false, some, List, [], ◌∷◌, ◌++◌, arith, ltb, leb,
  ◌&&◌, if◌then◌else◌, min, u64_max, dec_lt, foldl,
}
use freemkv_engine.Mapfile.Status.{SectorStatus}
use freemkv_engine.Mapfile.Entry.{MapEntry, push_coalesced}
use freemkv_engine.Mapfile.Runs.{
  status_at, IsSorted, IsRuns, cons_coalesced, coalesce, foldl-coalesce,
}
use freemkv_engine.Mapfile.Runs.Coalesce.{
  coalesce-IsRuns, status_at-coalesce, coalesce-Apart, coalesce-append,
}
use freemkv_engine.Mapfile.Splice.{window_pieces, splice_entries}
use freemkv_engine.Mapfile.Splice.Window.{
  IsRuns-IsSorted, IsSorted-IsSized, front, rest, rest-IsRuns, front-IsSorted, rest-behind,
  front-append-rest, splice_before, splice_at,
}
use freemkv_engine.Mapfile.Splice.Pieces.{
  IsSorted-le, before_eq, window_pieces-IsSorted, status_at-window_pieces,
}
use freemkv_engine.Mapfile.Splice.Edges.{Apart-pieces, pieces-append, LastApart-pieces}

module _ (pos end : ℕ) (status : SectorStatus) (nonempty : pos < end) (fits : end ≤ u64_max) where
  abbrev ps : List MapEntry → List MapEntry
  ps = window_pieces pos end status false

  IsSorted-front : (lo : ℕ) (es : List MapEntry) → IsSorted lo es → IsSorted 0 (ps (front end es))
  IsSorted-front lo es s = IsSorted-le 0 (min 0 pos) (ps (front end es)) (omega arith) (
      window_pieces-IsSorted pos end status nonempty fits 0 (front end es) (omega arith)
        (IsSorted-le 0 lo (front end es) (omega arith) (front-IsSorted end lo es s)))

  put_before :
      {lo : ℕ} (e : MapEntry) (es : List MapEntry)
      → IsRuns lo (e ∷ es)
      → e.pos + e.size < pos
      → coalesce (ps (e ∷ es)) ≡ e ∷ coalesce (ps es)
  put_before e es r h =
      let s = IsRuns-IsSorted (e.pos + e.size) es r.3 in
      rw (before_eq pos end status nonempty fits e es r.1 (omega arith))
        (coalesce-Apart e (ps es) r.1 (Apart-pieces pos end status nonempty fits e es h r.2 s))

  -- The rebuild of all pieces is that of the window's, followed by the entries behind it.
  rebuild_front :
      (lo : ℕ) (es : List MapEntry)
      → IsRuns lo es
      → coalesce (ps es) ≡ foldl push_coalesced [] (ps (front end es)) ++ rest end es
  rebuild_front lo es r =
      ap (λ t. coalesce (ps t)) (sym (front-append-rest end es))
      ∙ ap coalesce (
          pieces-append pos end status nonempty fits lo (front end es) (rest end es)
            (rw (front-append-rest end es) s) (rest-behind end lo es s))
      ∙ coalesce-append 0 (ps (front end es)) (rest end es)
          (IsSorted-IsSized 0 (ps (front end es)) (IsSorted-front lo es s))
          (rest-IsRuns end lo es r) (LastApart-pieces pos end status nonempty fits lo es r)
      ∙ ap (λ t. t ++ rest end es) (sym (foldl-coalesce (ps (front end es))))
    where
      s : IsSorted lo es
      s = IsRuns-IsSorted lo es r

  -- For a range that is not empty and ends within u64, on a map of maximal runs: the splice of the
  -- window is the rebuild of the whole map with the range cut out of the old runs and the new run
  -- put in.
  pub splice-eq-rebuild :
      (lo : ℕ) (es : List MapEntry)
      → IsRuns lo es
      → splice_entries pos end status es ≡ coalesce (ps es)
  splice-eq-rebuild lo [] r =
      unfold splice_entries window_pieces push_coalesced coalesce cons_coalesced in refl
  splice-eq-rebuild lo (e ∷ es) r = elim (dec_lt (e.pos + e.size) pos) [
    | yes h ↦
        splice_before pos end status nonempty e es r.1 h
        ∙ ap (λ t. e ∷ t) (splice-eq-rebuild (e.pos + e.size) es r.3)
        ∙ sym (put_before e es r h)
    | no h ↦
        splice_at pos end status nonempty e es r.1 (omega arith) ∙ sym (rebuild_front lo (e ∷ es) r)
  ]

  -- A splice keeps the maximal-run invariant.
  pub splice-IsRuns :
      (es : List MapEntry) → IsRuns 0 es → IsRuns 0 (splice_entries pos end status es)
  splice-IsRuns es r = rw (splice-eq-rebuild 0 es r) (
      coalesce-IsRuns 0 (ps es) (
        IsSorted-le 0 (min 0 pos) (ps es) (omega arith) (
          window_pieces-IsSorted pos end status nonempty fits 0 es (omega arith)
            (IsRuns-IsSorted 0 es r))))

  -- A splice gives the new status to the bytes of the range, and leaves every other byte's status.
  pub status_at-splice :
      (es : List MapEntry) (x : ℕ)
      → IsRuns 0 es
      → status_at (splice_entries pos end status es) x
        ≡ (if leb pos x && ltb x end then some status else status_at es x)
  status_at-splice es x r =
      let s = IsRuns-IsSorted 0 es r in
      ap (λ t. status_at t x) (splice-eq-rebuild 0 es r)
      ∙ status_at-coalesce (min 0 pos) (ps es) x
          (window_pieces-IsSorted pos end status nonempty fits 0 es (omega arith) s)
      ∙ status_at-window_pieces pos end status nonempty fits 0 es x (omega arith) s
