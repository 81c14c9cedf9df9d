-- ===== src/Mapfile/Splice/Window.antt =====
-- The window that `Mapfile::splice` cuts out with its two partition points.
use freemkv_engine.Base.{
  ℕ, suc, ◌+◌, ◌≤◌, ◌<◌, ◌≡◌, refl, ap, false, List, [], ◌∷◌, ◌++◌, arith, dec_le, take, drop,
  foldl, All,
}
use native.Mathlib.Nat.{suc-sub-suc, sub-zero}
use freemkv_engine.Mapfile.Status.{SectorStatus}
use freemkv_engine.Mapfile.Entry.{MapEntry, push_coalesced}
use freemkv_engine.Mapfile.Runs.{IsSized, IsSorted, IsRuns}
use freemkv_engine.Mapfile.Splice.{window_pieces, window_lo, window_hi, splice_entries}

pub IsRuns-IsSorted : (lo : ℕ) (es : List MapEntry) → IsRuns lo es → IsSorted lo es
IsRuns-IsSorted lo [] r = tt
IsRuns-IsSorted lo (e ∷ es) r = (r.0, r.1, IsRuns-IsSorted (e.pos + e.size) es r.3)

pub IsSorted-IsSized : (lo : ℕ) (es : List MapEntry) → IsSorted lo es → All IsSized es
IsSorted-IsSized lo [] s = tt
IsSorted-IsSized lo (e ∷ es) s = (s.1, IsSorted-IsSized (e.pos + e.size) es s.2)

-- The entries up to the window's end, and those behind it.
abbrev pub front : ℕ → List MapEntry → List MapEntry
front end es = take (window_hi end es) es

abbrev pub rest : ℕ → List MapEntry → List MapEntry
rest end es = drop (window_hi end es) es

module _ (end : ℕ) (e : MapEntry) (es : List MapEntry) where
  pub window_hi_in : e.pos ≤ end → window_hi end (e ∷ es) ≡ suc (window_hi end es)
  window_hi_in h = ground arith

  pub window_hi_out : end < e.pos → window_hi end (e ∷ es) ≡ 0
  window_hi_out h = ground arith

  pub window_lo_in :
      IsSized e → e.pos + e.size < end → window_lo end (e ∷ es) ≡ suc (window_lo end es)
  window_lo_in s h = ground arith

  pub window_lo_out : IsSized e → end ≤ e.pos + e.size → window_lo end (e ∷ es) ≡ 0
  window_lo_out s h = ground arith

-- Behind the range no entry is in the window.
pub window_hi_behind :
    (end lo : ℕ) (es : List MapEntry) → end < lo → IsSorted lo es → window_hi end es ≡ 0
window_hi_behind end lo [] h s = refl
window_hi_behind end lo (e ∷ es) h s = window_hi_out end e es (omega arith)

pub rest-IsRuns : (end lo : ℕ) (es : List MapEntry) → IsRuns lo es → IsRuns 0 (rest end es)
rest-IsRuns end lo [] r = tt
rest-IsRuns end lo (e ∷ es) r = elim (dec_le e.pos end) [
  | yes h ↦ rw (window_hi_in end e es h) (rest-IsRuns end (e.pos + e.size) es r.3)
  | no h ↦ rw (window_hi_out end e es (omega arith)) (omega arith, r.1, r.2, r.3)
]

pub front-IsSorted : (end lo : ℕ) (es : List MapEntry) → IsSorted lo es → IsSorted lo (front end es)
front-IsSorted end lo [] r = tt
front-IsSorted end lo (e ∷ es) r = elim (dec_le e.pos end) [
  | yes h ↦ rw (window_hi_in end e es h) (r.0, r.1, front-IsSorted end (e.pos + e.size) es r.2)
  | no h ↦ rw (window_hi_out end e es (omega arith)) tt
]

pub rest-behind :
    (end lo : ℕ) (es : List MapEntry) → IsSorted lo es → IsSorted (suc end) (rest end es)
rest-behind end lo [] r = tt
rest-behind end lo (e ∷ es) r = elim (dec_le e.pos end) [
  | yes h ↦ rw (window_hi_in end e es h) (rest-behind end (e.pos + e.size) es r.2)
  | no h ↦ rw (window_hi_out end e es (omega arith)) (omega arith, r.1, r.2)
]

pub front-append-rest : (end : ℕ) (es : List MapEntry) → front end es ++ rest end es ≡ es
front-append-rest end [] = refl
front-append-rest end (e ∷ es) = elim (dec_le e.pos end) [
  | yes h ↦ rw (window_hi_in end e es h) (ap (λ t. e ∷ t) (front-append-rest end es))
  | no h ↦ rw (window_hi_out end e es (omega arith)) refl
]

module _ (pos end : ℕ) (status : SectorStatus) (nonempty : pos < end) where
  -- An entry that ends before the range is left where it stands.
  pub splice_before :
      (e : MapEntry) (es : List MapEntry)
      → IsSized e
      → e.pos + e.size < pos
      → splice_entries pos end status (e ∷ es) ≡ e ∷ splice_entries pos end status es
  unfolding splice_entries
  splice_before e es s h =
      rw (window_lo_in pos e es s h, window_hi_in end e es (omega arith)) (rw suc-sub-suc)

  -- From the first entry that reaches the range on, the window is a prefix.
  pub splice_at :
      (e : MapEntry) (es : List MapEntry)
      → IsSized e
      → pos ≤ e.pos + e.size
      → splice_entries pos end status (e ∷ es)
        ≡ foldl push_coalesced [] (window_pieces pos end status false (front end (e ∷ es)))
          ++ rest end (e ∷ es)
  unfolding splice_entries
  splice_at e es s h = rw (window_lo_out pos e es s h) (rw sub-zero)
