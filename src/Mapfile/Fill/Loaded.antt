-- ===== src/Mapfile/Fill/Loaded.antt =====
-- The entries and the size of a mapfile after `Mapfile::load` of src/recovery/mapfile.rs.
use freemkv_engine.Base.{
  ℕ, ◌+◌, ◌≡◌, refl, ap, ◌∙◌, true, false, none, List, [], ◌∷◌, arith, ltb, leb, if◌then◌else◌, All,
  Bool-cases, inl, inr, ◌&&◌, le→leb,
}
use freemkv_engine.Mapfile.Entry.{MapEntry}
use freemkv_engine.Mapfile.Runs.{
  status_at, IsSized, IsSorted, IsRuns, coalesce, cons_coalesced, foldl-coalesce,
}
use freemkv_engine.Mapfile.Runs.Coalesce.{coalesce-IsRuns, status_at-coalesce, coalesce_runs}
use freemkv_engine.Mapfile.Splice.Window.{IsRuns-IsSorted, IsSorted-IsSized}
use freemkv_engine.Mapfile.State.{ok, err, invalid, overlap}
use freemkv_engine.Mapfile.Fill.{sort_entries, fill_entries, map_end}
use freemkv_engine.Mapfile.Fill.Sort.{sort_entries-All, status_at-sort_entries, sort_entries_sorted}
use freemkv_engine.Mapfile.Fill.Gaps.{
  with_gaps, in_order, IsGapless, or_nontried, end_from, in_order-IsSorted, IsSorted-in_order,
  fill_loop-foldl, with_gaps-IsSorted, with_gaps-gapless, map_end-end_from, status_at-with_gaps,
  end_from-with_gaps,
}

-- The rebuild of the sorted entries with their gaps.
abbrev pub loaded : List MapEntry → List MapEntry
loaded es = coalesce (with_gaps 0 (sort_entries es))

-- Loading non-empty entries that end within u64 refuses them exactly where two of them overlap, and
-- else gives the rebuild of the sorted entries with an untried entry in each gap.
pub fill_entries-eq-loaded :
    (es : List MapEntry)
    → All IsSized es
    → fill_entries es
      ≡ (if in_order 0 (sort_entries es) then ok (loaded es) else err (invalid overlap))
unfolding fill_entries
fill_entries-eq-loaded es s =
    fill_loop-foldl 0 [] (sort_entries es) (sort_entries-All es s)
    ∙ ap (λ t. if in_order 0 (sort_entries es) then ok t else err (invalid overlap))
        (foldl-coalesce (with_gaps 0 (sort_entries es)))

end_from-cons_coalesced :
    (lo : ℕ) (e : MapEntry) (xs : List MapEntry)
    → IsSized e
    → IsRuns (e.pos + e.size) xs
    → end_from lo (cons_coalesced e xs) ≡ end_from lo (e ∷ xs)
unfolding cons_coalesced
end_from-cons_coalesced lo e [] s r = refl
end_from-cons_coalesced lo e (f ∷ fs) s r =
    ground (arith, ap (λ t. end_from t fs) {x = e.pos + (e.size + f.size)} {y = f.pos + f.size})

end_from-coalesce :
    (lo : ℕ) (es : List MapEntry) → IsSorted lo es → end_from lo (coalesce es) ≡ end_from lo es
unfolding coalesce
end_from-coalesce lo [] s = refl
end_from-coalesce lo (e ∷ es) s =
    end_from-cons_coalesced lo e (coalesce es) s.1 (coalesce-IsRuns (e.pos + e.size) es s.2)
    ∙ end_from-coalesce (e.pos + e.size) es s.2

pub map_end-runs : (es : List MapEntry) → IsSorted 0 es → map_end es ≡ end_from 0 es
map_end-runs [] s = unfold map_end in refl
map_end-runs (e ∷ es) s = map_end-end_from 0 e es s

module _ (es : List MapEntry) (sized : All IsSized es)
    (s : in_order 0 (sort_entries es) ≡ true) where
  sorted : IsSorted 0 (sort_entries es)
  sorted = in_order-IsSorted 0 (sort_entries es) (sort_entries-All es sized) s

  gapped : IsSorted 0 (with_gaps 0 (sort_entries es))
  gapped = with_gaps-IsSorted 0 (sort_entries es) sorted

  -- The loaded entries are maximal runs.
  pub loaded-IsRuns : IsRuns 0 (loaded es)
  loaded-IsRuns = coalesce-IsRuns 0 (with_gaps 0 (sort_entries es)) gapped

  map_end-loaded : map_end (loaded es) ≡ end_from 0 (sort_entries es)
  map_end-loaded =
      map_end-runs (loaded es) (IsRuns-IsSorted 0 (loaded es) loaded-IsRuns)
      ∙ end_from-coalesce 0 (with_gaps 0 (sort_entries es)) gapped
      ∙ end_from-with_gaps 0 (sort_entries es)

  -- Each byte below the end of the map has the status of its parsed entry, or is untried.
  pub status_at-loaded :
      (x : ℕ)
      → status_at (loaded es) x
        ≡ (if ltb x (map_end (loaded es)) then or_nontried (status_at es x) else none)
  status_at-loaded x = rw (map_end-loaded) (
      status_at-coalesce 0 (with_gaps 0 (sort_entries es)) x gapped
      ∙ status_at-with_gaps 0 x (sort_entries es) sorted
      ∙ ap (λ t. if leb 0 x && ltb x (end_from 0 (sort_entries es)) then or_nontried t else none)
          (status_at-sort_entries x es sorted)
      ∙ ap
          (λ b.
            if b && ltb x (end_from 0 (sort_entries es))
            then or_nontried (status_at es x)
            else none)
          (le→leb 0 x (omega arith)))

-- Entries that load without an error become maximal runs, and each byte below the end of the map has
-- the status of its parsed entry, or is untried where there was none.
pub status_at-fill_entries :
    (es filled : List MapEntry) (x : ℕ)
    → All IsSized es
    → fill_entries es ≡ ok filled
    → IsRuns 0 filled
      × (status_at filled x
          ≡ (if ltb x (map_end filled) then or_nontried (status_at es x) else none))
status_at-fill_entries es filled x sized h = elim (Bool-cases (in_order 0 (sort_entries es))) [
  | inl s ↦ rw (← gives s) (loaded_lem s)
  | inr s ↦ absurd (refused s)
]
  where
    gives : in_order 0 (sort_entries es) ≡ true → loaded es ≡ filled
    gives s = ground (arith, fill_entries-eq-loaded es sized)

    loaded_lem :
        in_order 0 (sort_entries es) ≡ true
        → IsRuns 0 (loaded es)
          × (status_at (loaded es) x
              ≡ (if ltb x (map_end (loaded es)) then or_nontried (status_at es x) else none))
    loaded_lem s = (loaded-IsRuns es sized s, status_at-loaded es sized s x)

    refused : in_order 0 (sort_entries es) ≡ false → ⊥
    refused s = ground (arith, fill_entries-eq-loaded es sized)

-- A map of maximal runs without a gap loads as it is.
pub fill_entries_gapless :
    (es : List MapEntry) → IsRuns 0 es → IsGapless 0 es → fill_entries es ≡ ok es
fill_entries_gapless es r g =
    rw
      (
        fill_entries-eq-loaded es (IsSorted-IsSized 0 es sorted_es),
        sort_entries_sorted 0 es sorted_es,
        IsSorted-in_order 0 es sorted_es,
        with_gaps-gapless 0 es g,
        coalesce_runs 0 es r,
      )
      refl
  where
    sorted_es : IsSorted 0 es
    sorted_es = IsRuns-IsSorted 0 es r
