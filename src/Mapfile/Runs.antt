-- ===== src/Mapfile/Runs.antt =====
-- The meaning of an entry list of src/recovery/mapfile.rs: the status of each byte, the
-- maximal-run invariant, and `push_coalesced` as a right fold.
pub mod Coalesce
use freemkv_engine.Base.{
  ℕ, ◌+◌, ◌≤◌, ◌<◌, ◌≡◌, refl, ◌≢◌, ◌∙◌, Bool, true, false, ◌&&◌, Option, none, some, List, [], ◌∷◌,
  ◌++◌, foldl, arith, ltb, leb, if◌then◌else◌, saturating_add, u64_max,
}
use freemkv_engine.Mapfile.Status.{SectorStatus, status_eq, status_eq-true}
use freemkv_engine.Mapfile.Entry.{MapEntry, continues, push_coalesced, run_end}

-- Byte `x` lies in the entry.
abbrev pub covers : MapEntry → ℕ → Bool
covers e x = leb e.pos x && ltb x (e.pos + e.size)

-- The status that a list gives to byte `x`; none where no entry covers it.
unfoldable pub status_at : List MapEntry → ℕ → Option SectorStatus
status_at [] x = none
status_at (e ∷ es) x = if covers e x then some e.status else status_at es x

-- An entry is not empty and ends within u64.
abbrev pub IsSized : MapEntry → Type 0
IsSized e = (0 < e.size) × (e.pos + e.size ≤ u64_max)

-- The first entry of the list does not continue `e`.
abbrev pub Apart : MapEntry → List MapEntry → Type 0
Apart e [] = Unit {0}
Apart e (f ∷ fs) = e.pos + e.size ≡ f.pos → e.status ≢ f.status

-- Sized, in order and disjoint, from byte `lo` on.
abbrev pub IsSorted : ℕ → List MapEntry → Type 0
IsSorted lo [] = Unit {0}
IsSorted lo (e ∷ es) = (lo ≤ e.pos) × IsSized e × IsSorted (e.pos + e.size) es

-- The maximal-run invariant: sorted, and no two touching entries share a status.
abbrev pub IsRuns : ℕ → List MapEntry → Type 0
IsRuns lo [] = Unit {0}
IsRuns lo (e ∷ es) = (lo ≤ e.pos) × IsSized e × Apart e es × IsRuns (e.pos + e.size) es

-- `e` put before a list, joined to its first entry where that continues `e`.
unfoldable pub cons_coalesced : MapEntry → List MapEntry → List MapEntry
cons_coalesced e [] = e ∷ []
cons_coalesced e (f ∷ fs) =
    if continues e f then record e { size = saturating_add e.size f.size } ∷ fs else e ∷ f ∷ fs

-- The full rebuild: the list with every two continuing neighbours joined.
unfoldable pub coalesce : List MapEntry → List MapEntry
coalesce [] = []
coalesce (e ∷ es) = cons_coalesced e (coalesce es)

push-cons_coalesced :
    (a e : MapEntry) (xs : List MapEntry)
    → push_coalesced (cons_coalesced a xs) e ≡ cons_coalesced a (push_coalesced xs e)
unfolding push_coalesced cons_coalesced
push-cons_coalesced a e [] = refl
push-cons_coalesced a e (x ∷ []) = ground (arith, status_eq-true a.status x.status)
push-cons_coalesced a e (x ∷ y ∷ xs) = ground (arith, status_eq-true a.status x.status)

foldl-push_coalesced :
    (es : List MapEntry) (a : MapEntry) (acc : List MapEntry)
    → foldl push_coalesced (cons_coalesced a acc) es
      ≡ cons_coalesced a (foldl push_coalesced acc es)
foldl-push_coalesced [] a acc = refl
foldl-push_coalesced (e ∷ es) a acc =
    rw (push-cons_coalesced a e acc) (foldl-push_coalesced es a (push_coalesced acc e))

-- Pushing entries one by one builds the full rebuild.
pub foldl-coalesce : (es : List MapEntry) → foldl push_coalesced [] es ≡ coalesce es
unfolding coalesce push_coalesced cons_coalesced
foldl-coalesce [] = refl
foldl-coalesce (e ∷ es) = rw (← foldl-coalesce es) (foldl-push_coalesced es e [])
