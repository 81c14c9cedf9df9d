-- ===== src/Mapfile/Splice/Edges.antt =====
-- The two edges of the window of `Mapfile::splice`: the pieces stay apart from the runs before it
-- and from those behind it.
use freemkv_engine.Base.{
  ℕ, suc, ◌+◌, ◌≤◌, ◌<◌, ◌≡◌, refl, sym, ap, ◌∙◌, false, List, [], ◌∷◌, ◌++◌, arith, min, u64_max,
  dec_le, append-nil,
}
use freemkv_engine.Mapfile.Status.{SectorStatus}
use freemkv_engine.Mapfile.Entry.{MapEntry}
use freemkv_engine.Mapfile.Runs.{IsSized, IsSorted, IsRuns, Apart}
use freemkv_engine.Mapfile.Runs.Coalesce.{LastApart, LastApart-nil}
use freemkv_engine.Mapfile.Splice.{new_run, window_pieces}
use freemkv_engine.Mapfile.Splice.Window.{
  IsRuns-IsSorted, front, rest, window_hi_in, window_hi_out, window_hi_behind, front-IsSorted,
}
use freemkv_engine.Mapfile.Splice.Pieces.{
  head_piece, tail_piece, before, cut_left, covered, cut_both, cut_right, behind, piece_view,
  before_eq, cut_left_eq, covered_eq, cut_both_eq, cut_right_eq, behind_eq, window_pieces-IsSorted,
}

Apart-gap :
    (e : MapEntry) (lo : ℕ) (es : List MapEntry) → e.pos + e.size < lo → IsSorted lo es → Apart e es
Apart-gap e lo [] h s = tt
Apart-gap e lo (f ∷ es) h s = λ t. absurd (omega arith)

IsSorted-append_left : (lo : ℕ) (xs ys : List MapEntry) → IsSorted lo (xs ++ ys) → IsSorted lo xs
IsSorted-append_left lo [] ys s = tt
IsSorted-append_left lo (e ∷ xs) ys s = (s.0, s.1, IsSorted-append_left (e.pos + e.size) xs ys s.2)

module _ (pos end : ℕ) (status : SectorStatus) (nonempty : pos < end) (fits : end ≤ u64_max) where
  abbrev pub ps : List MapEntry → List MapEntry
  ps = window_pieces pos end status false

  -- A run that ends before the range stays apart from the pieces.
  pub Apart-pieces :
      (e : MapEntry) (es : List MapEntry)
      → e.pos + e.size < pos
      → Apart e es
      → IsSorted (e.pos + e.size) es
      → Apart e (ps es)
  Apart-pieces e [] h a s = unfold window_pieces in λ t. absurd (omega arith)
  Apart-pieces e (f ∷ es) h a s = elim (piece_view pos end status nonempty fits f es s.1 s.2) [
    | before i eq ↦ rw eq a
    | cut_left i j k eq ↦ rw eq a
    | covered i j eq ↦ rw eq (
        Apart-gap e (min (f.pos + f.size) pos) (ps es) (omega arith)
          (window_pieces-IsSorted pos end status nonempty fits (f.pos + f.size) es j s.2))
    | cut_both i j eq ↦ rw eq a
    | cut_right i j k eq ↦ rw eq (λ t. absurd (omega arith))
    | behind i eq ↦ rw eq (λ t. absurd (omega arith))
  ]

  -- Entries behind the range are copied after the pieces of the entries before them.
  pub pieces-append :
      (lo : ℕ) (xs ys : List MapEntry)
      → IsSorted lo (xs ++ ys)
      → IsSorted (suc end) ys
      → ps (xs ++ ys) ≡ ps xs ++ ys
  pieces-append lo [] [] s b = sym (append-nil (ps []))
  pieces-append lo [] (y ∷ ys) s b =
      rw (behind_eq pos end status nonempty fits y ys b.1 b.2 (omega arith))
        (unfold window_pieces in refl)
  pieces-append lo (e ∷ xs) ys s b =
      let ih = pieces-append (e.pos + e.size) xs ys s.2 b in
      let left = IsSorted-append_left (e.pos + e.size) xs ys s.2 in
      elim (piece_view pos end status nonempty fits e (xs ++ ys) s.1 s.2) [
        | before i eq ↦
            rw (eq, before_eq pos end status nonempty fits e xs s.1 i) (ap (λ t. e ∷ t) ih)
        | cut_left i j k eq ↦
            rw (eq, cut_left_eq pos end status nonempty fits e xs s.1 i j k)
              (ap (λ t. head_piece pos end status nonempty fits e ∷ t) ih)
        | covered i j eq ↦ rw (eq, covered_eq pos end status nonempty fits e xs s.1 i j) ih
        | cut_both i j eq ↦ rw (eq, cut_both_eq pos end status nonempty fits e xs s.1 left i j)
        | cut_right i j k eq ↦
            rw (eq, cut_right_eq pos end status nonempty fits e xs s.1 left i j k)
        | behind i eq ↦ rw (eq, behind_eq pos end status nonempty fits e xs s.1 left i)
      ]

  -- There is always a piece: the new run.
  pieces_nonempty :
      (lo : ℕ) (es : List MapEntry)
      → IsSorted lo es
      → (q : MapEntry) × (qs : List MapEntry) × (ps es ≡ q ∷ qs)
  pieces_nonempty lo [] s = (new_run pos end status, [], unfold window_pieces in refl)
  pieces_nonempty lo (e ∷ es) s = elim (piece_view pos end status nonempty fits e es s.1 s.2) [
    | before i eq ↦ (_, _, eq)
    | cut_left i j k eq ↦ (_, _, eq)
    | covered i j eq ↦ let (q, qs, ih) = pieces_nonempty (e.pos + e.size) es s.2 in (q, qs, eq ∙ ih)
    | cut_both i j eq ↦ (_, _, eq)
    | cut_right i j k eq ↦ (_, _, eq)
    | behind i eq ↦ (_, _, eq)
  ]

  LastApart-cons :
      (lo : ℕ) (p : MapEntry) (es after : List MapEntry)
      → IsSorted lo es
      → LastApart (ps es) after
      → LastApart (p ∷ ps es) after
  LastApart-cons lo p es after s a = let (q, qs, eq) = pieces_nonempty lo es s in rw eq (rw eq at a)

  Apart-tail_piece :
      (e : MapEntry) (es : List MapEntry)
      → end < e.pos + e.size
      → Apart e es
      → Apart (tail_piece pos end status nonempty fits e) es
  Apart-tail_piece e [] h a = tt
  Apart-tail_piece e (f ∷ es) h a = λ t. a (omega arith)

  LastApart-window :
      (e : MapEntry) (es : List MapEntry)
      → IsSized e
      → Apart e es
      → IsSorted (e.pos + e.size) es
      → e.pos ≤ end
      → LastApart (ps (front end es)) (rest end es)
      → LastApart (ps (e ∷ front end es)) (rest end es)
  LastApart-window e es sized a s h ih =
      let fs = front-IsSorted end (e.pos + e.size) es s in
      let last =
        λ (p : MapEntry). LastApart-cons (e.pos + e.size) p (front end es) (rest end es) fs ih in
      elim (piece_view pos end status nonempty fits e (front end es) sized fs) [
        | before i eq ↦ rw eq (last e)
        | cut_left i j k eq ↦ rw eq (last (head_piece pos end status nonempty fits e))
        | covered i j eq ↦ rw eq ih
        | cut_both i j eq ↦
            rw (eq, window_hi_behind end (e.pos + e.size) es j s) (Apart-tail_piece e es j a)
        | cut_right i j k eq ↦
            rw (eq, window_hi_behind end (e.pos + e.size) es k s) (Apart-tail_piece e es k a)
        | behind i eq ↦ rw (eq, window_hi_behind end (e.pos + e.size) es (omega arith) s) a
      ]

  -- The last piece of the window stays apart from what lies behind the window.
  pub LastApart-pieces :
      (lo : ℕ) (es : List MapEntry) → IsRuns lo es → LastApart (ps (front end es)) (rest end es)
  LastApart-pieces lo [] r = LastApart-nil (ps [])
  LastApart-pieces lo (e ∷ es) r = elim (dec_le e.pos end) [
    | no h ↦
        rw (window_hi_out end e es (omega arith))
          (unfold window_pieces in λ t. absurd (omega arith))
    | yes h ↦ rw (window_hi_in end e es h) (
        LastApart-window e es r.1 r.2 (IsRuns-IsSorted (e.pos + e.size) es r.3) h
          (LastApart-pieces (e.pos + e.size) es r.3))
  ]
