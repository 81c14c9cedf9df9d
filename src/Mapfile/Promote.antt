-- ===== src/Mapfile/Promote.antt =====
-- `Mapfile::promote` of src/recovery/mapfile.rs over the entries.
use freemkv_engine.Base.{
  ℕ, ◌+◌, ◌≡◌, refl, ap, ◌∙◌, false, Option, none, some, List, [], ◌∷◌, map, foldl, arith,
  if◌then◌else◌, Bool-cases, inl, inr,
}
use freemkv_engine.Mapfile.Status.{SectorStatus, contains}
use freemkv_engine.Mapfile.Entry.{MapEntry, push_coalesced}
use freemkv_engine.Mapfile.Runs.{status_at, IsSorted, IsRuns, coalesce, foldl-coalesce}
use freemkv_engine.Mapfile.Runs.Coalesce.{coalesce-IsRuns, status_at-coalesce, coalesce_runs}
use freemkv_engine.Mapfile.Splice.Window.{IsRuns-IsSorted}
use freemkv_engine.Mapfile.Persist.{promote_entry, promote_loop, any_hit}

module _ (from : List SectorStatus) (to : SectorStatus) where
  abbrev promoted : List MapEntry → List MapEntry
  promoted = map (promote_entry from to)

  promote_loop-foldl :
      (out es : List MapEntry)
      → promote_loop from to out es ≡ foldl push_coalesced out (promoted es)
  unfolding promote_loop
  promote_loop-foldl out [] = refl
  promote_loop-foldl out (e ∷ es) =
      promote_loop-foldl (push_coalesced out (promote_entry from to e)) es

  promoted-IsSorted : (lo : ℕ) (es : List MapEntry) → IsSorted lo es → IsSorted lo (promoted es)
  promoted-IsSorted lo [] s = tt
  promoted-IsSorted lo (e ∷ es) s = elim (Bool-cases (contains from e.status)) [
    | inl hit ↦ rw hit (s.0, s.1, promoted-IsSorted (e.pos + e.size) es s.2)
    | inr miss ↦ rw miss (s.0, s.1, promoted-IsSorted (e.pos + e.size) es s.2)
  ]

  -- `promote` keeps the maximal-run invariant.
  pub promote_loop-IsRuns :
      (es : List MapEntry) → IsRuns 0 es → IsRuns 0 (promote_loop from to [] es)
  promote_loop-IsRuns es r =
      rw (promote_loop-foldl [] es, foldl-coalesce (promoted es))
        (coalesce-IsRuns 0 (promoted es) (promoted-IsSorted 0 es (IsRuns-IsSorted 0 es r)))

  -- What becomes of a byte's status.
  abbrev pub promote_status : Option SectorStatus → Option SectorStatus
  promote_status none = none
  promote_status (some s) = if contains from s then some to else some s

  status_at-promoted :
      (es : List MapEntry) (x : ℕ) → status_at (promoted es) x ≡ promote_status (status_at es x)
  unfolding status_at
  status_at-promoted [] x = refl
  status_at-promoted (e ∷ es) x = ground (arith, status_at-promoted es x)

  -- `promote` re-marks the bytes whose status is in `from`, and no other.
  pub status_at-promote_loop :
      (es : List MapEntry) (x : ℕ)
      → IsRuns 0 es
      → status_at (promote_loop from to [] es) x ≡ promote_status (status_at es x)
  status_at-promote_loop es x r =
      rw (promote_loop-foldl [] es, foldl-coalesce (promoted es))
        (status_at-coalesce 0 (promoted es) x (promoted-IsSorted 0 es (IsRuns-IsSorted 0 es r))
          ∙ status_at-promoted es x)

  promoted_miss : (es : List MapEntry) → any_hit from es ≡ false → promoted es ≡ es
  unfolding any_hit
  promoted_miss [] h = refl
  promoted_miss (e ∷ es) h = ground (arith, promoted_miss es)

  -- Without a hit `promote` leaves the entries as they are.
  pub promote_loop_miss :
      (es : List MapEntry) → IsRuns 0 es → any_hit from es ≡ false → promote_loop from to [] es ≡ es
  promote_loop_miss es r h =
      promote_loop-foldl [] es
      ∙ foldl-coalesce (promoted es)
      ∙ ap coalesce (promoted_miss es h)
      ∙ coalesce_runs 0 es r
