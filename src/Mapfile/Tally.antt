-- ===== src/Mapfile/Tally.antt =====
-- `tally` and `compute_stats` of src/recovery/mapfile.rs against plain sums over the entries.
use freemkv_engine.Base.{
  ℕ, ◌+◌, ◌≤◌, ◌≡◌, sym, ◌∙◌, Bool, true, false, List, [], ◌∷◌, ◌++◌, foldl, arith, if◌then◌else◌,
  u64_max, u32_max, length,
}
use native.Mathlib.Nat.{add_assoc, add-zero}
use freemkv_engine.Mapfile.Status.{
  SectorStatus, non_tried, non_trimmed, non_scraped, unreadable, finished,
}
use freemkv_engine.Mapfile.Entry.{MapEntry, MapStats, tally}
use freemkv_engine.Mapfile.Runs.{IsSorted}

-- The five byte classes of `MapStats`.
abbrev pub is_good : SectorStatus → Bool
is_good finished = true
is_good _ = false

abbrev pub is_unreadable : SectorStatus → Bool
is_unreadable unreadable = true
is_unreadable _ = false

abbrev pub is_nontried : SectorStatus → Bool
is_nontried non_tried = true
is_nontried _ = false

abbrev pub is_retryable : SectorStatus → Bool
is_retryable non_trimmed = true
is_retryable non_scraped = true
is_retryable _ = false

abbrev pub is_pending : SectorStatus → Bool
is_pending non_tried = true
is_pending non_trimmed = true
is_pending non_scraped = true
is_pending _ = false

-- The bytes of the entries whose status passes the test, and how many such entries there are.
unfoldable pub bytes_where : (SectorStatus → Bool) → List MapEntry → ℕ
bytes_where test [] = 0
bytes_where test (e ∷ es) = (if test e.status then e.size else 0) + bytes_where test es

unfoldable pub runs_where : (SectorStatus → Bool) → List MapEntry → ℕ
runs_where test [] = 0
runs_where test (e ∷ es) = (if test e.status then 1 else 0) + runs_where test es

-- Statistics with the entries' sums added, without any bound.
unfoldable pub plus : MapStats → List MapEntry → MapStats
unfolding bytes_where runs_where
plus s es = record s {
  bytes_good = s.bytes_good + bytes_where is_good es;
  bytes_unreadable = s.bytes_unreadable + bytes_where is_unreadable es;
  bytes_pending = s.bytes_pending + bytes_where is_pending es;
  bytes_nontried = s.bytes_nontried + bytes_where is_nontried es;
  bytes_retryable = s.bytes_retryable + bytes_where is_retryable es;
  num_bad_ranges = s.num_bad_ranges + runs_where is_unreadable es;
}

pub bytes_where-append :
    (test : SectorStatus → Bool) (xs ys : List MapEntry)
    → bytes_where test (xs ++ ys) ≡ bytes_where test xs + bytes_where test ys
unfolding bytes_where
bytes_where-append test [] ys = omega arith
bytes_where-append test (e ∷ xs) ys = omega (arith, bytes_where-append test xs ys)

pub runs_where-append :
    (test : SectorStatus → Bool) (xs ys : List MapEntry)
    → runs_where test (xs ++ ys) ≡ runs_where test xs + runs_where test ys
unfolding runs_where
runs_where-append test [] ys = omega arith
runs_where-append test (e ∷ xs) ys = omega (arith, runs_where-append test xs ys)

-- The runs of a sorted list are disjoint, so no sum of their sizes passes the end of u64.
pub bytes_where_fits :
    (test : SectorStatus → Bool) (lo : ℕ) (es : List MapEntry)
    → lo ≤ u64_max
    → IsSorted lo es
    → bytes_where test es + lo ≤ u64_max
unfolding bytes_where
bytes_where_fits test lo [] h s = omega arith
bytes_where_fits test lo (e ∷ es) h s =
    ground (arith, bytes_where_fits test (e.pos + e.size) es s.1.1 s.2)

pub runs_where-le-length :
    (test : SectorStatus → Bool) (es : List MapEntry) → runs_where test es ≤ length es
unfolding runs_where
runs_where-le-length test [] = omega arith
runs_where-le-length test (e ∷ es) = ground (arith, runs_where-le-length test es)

-- Every sum fits its field.
pub record Fits (s : MapStats) : Type 0 where
  pub good_fits : s.bytes_good ≤ u64_max
  pub unreadable_fits : s.bytes_unreadable ≤ u64_max
  pub pending_fits : s.bytes_pending ≤ u64_max
  pub nontried_fits : s.bytes_nontried ≤ u64_max
  pub retryable_fits : s.bytes_retryable ≤ u64_max
  pub ranges_fit : s.num_bad_ranges ≤ u32_max

tally-plus :
    (s : MapStats) (e : MapEntry) → Fits (plus s (e ∷ [])) → tally true s e ≡ plus s (e ∷ [])
unfolding tally plus
tally-plus s e f = ground arith

tally-minus : (s : MapStats) (e : MapEntry) → tally false (plus s (e ∷ [])) e ≡ s
unfolding tally plus
tally-minus s e = ground arith

pub plus-append : (s : MapStats) (xs ys : List MapEntry) → plus (plus s xs) ys ≡ plus s (xs ++ ys)
unfolding plus
plus-append s xs ys = simp (bytes_where-append, runs_where-append, add_assoc)

-- Counting a middle part apart from its neighbours.
pub plus_middle :
    (s : MapStats) (xs ys zs : List MapEntry)
    → plus (plus s (xs ++ zs)) ys ≡ plus s (xs ++ ys ++ zs)
unfolding plus
plus_middle s xs ys zs = simp (bytes_where-append, runs_where-append) (ground arith)

plus_cons :
    (s : MapStats) (e : MapEntry) (es : List MapEntry) → plus s (e ∷ es) ≡ plus (plus s es) (e ∷ [])
unfolding plus
plus_cons s e es = ground arith

pub plus_nil : (s : MapStats) → plus s [] ≡ s
unfolding plus
plus_nil s = simp add-zero

pub Fits-plus : (s : MapStats) (xs ys : List MapEntry) → Fits (plus s (xs ++ ys)) → Fits (plus s xs)
unfolding plus
Fits-plus s xs ys f = omega (arith, bytes_where-append, runs_where-append)

-- Tallying entries in adds their sums, if the sums fit.
pub foldl-tally :
    (s : MapStats) (es : List MapEntry) → Fits (plus s es) → foldl (tally true) s es ≡ plus s es
foldl-tally s [] f = sym (plus_nil s)
foldl-tally s (e ∷ es) f = rw (tally-plus s e (Fits-plus s (e ∷ []) es f)) (
    foldl-tally (plus s (e ∷ [])) es (rw (plus-append s (e ∷ []) es) f) ∙ plus-append s (e ∷ []) es)

-- Tallying entries out takes the same sums away again.
pub foldl-tally_out : (s : MapStats) (es : List MapEntry) → foldl (tally false) (plus s es) es ≡ s
foldl-tally_out s [] = plus_nil s
foldl-tally_out s (e ∷ es) = rw (plus_cons s e es, tally-minus (plus s es) e) (foldl-tally_out s es)
