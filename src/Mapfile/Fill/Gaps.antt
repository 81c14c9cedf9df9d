-- ===== src/Mapfile/Fill/Gaps.antt =====
-- What `Mapfile::load` of src/recovery/mapfile.rs makes of the entries that it parsed.
use freemkv_engine.Base.{
  ℕ, ◌+◌, ◌≤◌, ◌<◌, ◌≡◌, refl, Bool, true, ◌&&◌, Option, none, some, List, [], ◌∷◌, ◌++◌, foldl,
  arith, ltb, leb, if◌then◌else◌, All,
}
use freemkv_engine.Mapfile.Status.{SectorStatus, non_tried}
use freemkv_engine.Mapfile.Entry.{MapEntry, push_coalesced}
use freemkv_engine.Mapfile.Runs.{status_at, IsSized, IsSorted}
use freemkv_engine.Mapfile.State.{ok, err, invalid, overlap}
use freemkv_engine.Mapfile.Fill.{gap_entry, fill_gap, fill_loop, map_end}

-- The list with an untried entry before each entry that leaves a gap.
abbrev pub with_gaps : ℕ → List MapEntry → List MapEntry
with_gaps cursor [] = []
with_gaps cursor (e ∷ es) =
    (if ltb cursor e.pos then gap_entry cursor e ∷ [] else []) ++ e ∷ with_gaps (e.pos + e.size) es

-- No entry begins before the end of the one before it.
abbrev pub in_order : ℕ → List MapEntry → Bool
in_order cursor [] = true
in_order cursor (e ∷ es) = leb cursor e.pos && in_order (e.pos + e.size) es

-- Each entry begins where the one before it ends.
abbrev pub IsGapless : ℕ → List MapEntry → Type 0
IsGapless lo [] = Unit {0}
IsGapless lo (e ∷ es) = (e.pos ≡ lo) × IsGapless (e.pos + e.size) es

pub in_order-IsSorted :
    (lo : ℕ) (es : List MapEntry) → All IsSized es → in_order lo es ≡ true → IsSorted lo es
in_order-IsSorted lo [] s h = tt
in_order-IsSorted lo (e ∷ es) s h = ground (arith, in_order-IsSorted (e.pos + e.size) es s.1)

pub IsSorted-in_order : (lo : ℕ) (es : List MapEntry) → IsSorted lo es → in_order lo es ≡ true
IsSorted-in_order lo [] s = refl
IsSorted-in_order lo (e ∷ es) s = ground (arith, IsSorted-in_order (e.pos + e.size) es s.2)

pub fill_loop-foldl :
    (cursor : ℕ) (filled es : List MapEntry)
    → All IsSized es
    → fill_loop cursor filled es ≡ (
        if in_order cursor es
        then ok (foldl push_coalesced filled (with_gaps cursor es))
        else err (invalid overlap))
unfolding fill_loop
fill_loop-foldl cursor filled [] s = refl
fill_loop-foldl cursor filled (e ∷ es) s =
    ground
      (arith, fill_loop-foldl (e.pos + e.size) (push_coalesced (fill_gap cursor filled e) e) es s.1)

pub with_gaps-IsSorted :
    (lo : ℕ) (es : List MapEntry) → IsSorted lo es → IsSorted lo (with_gaps lo es)
with_gaps-IsSorted lo [] s = tt
with_gaps-IsSorted lo (e ∷ es) s = ground (arith, with_gaps-IsSorted (e.pos + e.size) es s.2)

pub with_gaps-gapless : (lo : ℕ) (es : List MapEntry) → IsGapless lo es → with_gaps lo es ≡ es
with_gaps-gapless lo [] g = refl
with_gaps-gapless lo (e ∷ es) g = ground (arith, with_gaps-gapless (e.pos + e.size) es g.1)

-- An untried byte where there was no entry.
abbrev pub or_nontried : Option SectorStatus → Option SectorStatus
or_nontried none = some non_tried
or_nontried (some s) = some s

-- The end of the last entry, `lo` for none.
abbrev pub end_from : ℕ → List MapEntry → ℕ
end_from lo [] = lo
end_from lo (e ∷ es) = end_from (e.pos + e.size) es

pub end_from-le : (lo : ℕ) (es : List MapEntry) → IsSorted lo es → lo ≤ end_from lo es
end_from-le lo [] s = omega arith
end_from-le lo (e ∷ es) s = omega (arith, end_from-le (e.pos + e.size) es s.2)

pub map_end-end_from :
    (lo : ℕ) (e : MapEntry) (es : List MapEntry)
    → IsSorted lo (e ∷ es)
    → map_end (e ∷ es) ≡ end_from lo (e ∷ es)
unfolding map_end
map_end-end_from lo e [] s = omega arith
map_end-end_from lo e (f ∷ es) s = map_end-end_from (e.pos + e.size) f es s.2

status_at_below : (lo x : ℕ) (es : List MapEntry) → IsSorted lo es → x < lo → status_at es x ≡ none
unfolding status_at
status_at_below lo x [] s h = refl
status_at_below lo x (e ∷ es) s h =
    ground (arith, status_at_below (e.pos + e.size) x es s.2 (omega arith))

status_at_behind :
    (lo x : ℕ) (es : List MapEntry) → IsSorted lo es → end_from lo es ≤ x → status_at es x ≡ none
unfolding status_at
status_at_behind lo x [] s h = refl
status_at_behind lo x (e ∷ es) s h =
    ground
      (arith, end_from-le (e.pos + e.size) es s.2, status_at_behind (e.pos + e.size) x es s.2 h)

pub status_at-with_gaps :
    (lo x : ℕ) (es : List MapEntry)
    → IsSorted lo es
    → status_at (with_gaps lo es) x
      ≡ (if leb lo x && ltb x (end_from lo es) then or_nontried (status_at es x) else none)
unfolding status_at
status_at-with_gaps lo x [] s = ground arith
status_at-with_gaps lo x (e ∷ es) s = ground (
  arith,
  end_from-le (e.pos + e.size) es s.2,
  status_at-with_gaps (e.pos + e.size) x es s.2,
  status_at_below (e.pos + e.size) x es s.2,
)

pub end_from-with_gaps :
    (lo : ℕ) (es : List MapEntry) → end_from lo (with_gaps lo es) ≡ end_from lo es
end_from-with_gaps lo [] = refl
end_from-with_gaps lo (e ∷ es) = ground (arith, end_from-with_gaps (e.pos + e.size) es)
