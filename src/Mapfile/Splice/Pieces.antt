-- ===== src/Mapfile/Splice/Pieces.antt =====
-- The pieces that the window loop of `Mapfile::splice` pushes, as a list of entries.
use freemkv_engine.Base.{
  ℕ, ◌+◌, ◌-◌, ◌≤◌, ◌<◌, ◌≡◌, refl, true, false, some, List, [], ◌∷◌, arith, ltb, leb, ◌&&◌,
  if◌then◌else◌, min, u64_max, dec_le, dec_lt,
}
use freemkv_engine.Mapfile.Status.{SectorStatus}
use freemkv_engine.Mapfile.Entry.{MapEntry}
use freemkv_engine.Mapfile.Runs.{status_at, IsSized, IsSorted}
use freemkv_engine.Mapfile.Splice.{new_run, window_pieces}

pub IsSorted-le : (lo hi : ℕ) (es : List MapEntry) → lo ≤ hi → IsSorted hi es → IsSorted lo es
IsSorted-le lo hi [] h s = tt
IsSorted-le lo hi (e ∷ es) h s = (omega arith, s.1, s.2)

module _ (pos end : ℕ) (status : SectorStatus) (nonempty : pos < end) (fits : end ≤ u64_max) where
  -- Once the new run is placed, the rest of the list lies behind it and is copied.
  pub window_pieces_placed :
      (lo : ℕ) (es : List MapEntry)
      → end ≤ lo
      → IsSorted lo es
      → window_pieces pos end status true es ≡ es
  unfolding window_pieces
  window_pieces_placed lo [] h s = refl
  window_pieces_placed lo (e ∷ es) h s = ground (arith, window_pieces_placed (e.pos + e.size) es)

  -- What the loop pushes for the first entry of the window, by where the entry lies.
  abbrev pub pieces : List MapEntry → List MapEntry
  pieces = window_pieces pos end status false

  abbrev pub head_piece : MapEntry → MapEntry
  head_piece e = record { pos = e.pos; size = pos - e.pos; status = e.status }

  abbrev pub tail_piece : MapEntry → MapEntry
  tail_piece e = record { pos = end; size = e.pos + e.size - end; status = e.status }

  pub data PieceView (e : MapEntry) (es : List MapEntry) : Type 0 where
    before : e.pos + e.size ≤ pos → pieces (e ∷ es) ≡ e ∷ pieces es → PieceView e es
    cut_left :
        e.pos < pos
        → pos < e.pos + e.size
        → e.pos + e.size ≤ end
        → pieces (e ∷ es) ≡ head_piece e ∷ pieces es
        → PieceView e es
    covered : pos ≤ e.pos → e.pos + e.size ≤ end → pieces (e ∷ es) ≡ pieces es → PieceView e es
    cut_both :
        e.pos < pos
        → end < e.pos + e.size
        → pieces (e ∷ es) ≡ head_piece e ∷ new_run pos end status ∷ tail_piece e ∷ es
        → PieceView e es
    cut_right :
        pos ≤ e.pos
        → e.pos < end
        → end < e.pos + e.size
        → pieces (e ∷ es) ≡ new_run pos end status ∷ tail_piece e ∷ es
        → PieceView e es
    behind : end ≤ e.pos → pieces (e ∷ es) ≡ new_run pos end status ∷ e ∷ es → PieceView e es

  module _ (e : MapEntry) (es : List MapEntry) (s : IsSized e) where
    pub before_eq : e.pos + e.size ≤ pos → pieces (e ∷ es) ≡ e ∷ pieces es
    unfolding window_pieces
    before_eq h = ground arith

    pub cut_left_eq :
        e.pos < pos
        → pos < e.pos + e.size
        → e.pos + e.size ≤ end
        → pieces (e ∷ es) ≡ head_piece e ∷ pieces es
    unfolding window_pieces
    cut_left_eq h i j = ground arith

    pub covered_eq : pos ≤ e.pos → e.pos + e.size ≤ end → pieces (e ∷ es) ≡ pieces es
    unfolding window_pieces
    covered_eq h i = ground arith

    module _ (rest : IsSorted (e.pos + e.size) es) where
      pub cut_both_eq :
          e.pos < pos
          → end < e.pos + e.size
          → pieces (e ∷ es) ≡ head_piece e ∷ new_run pos end status ∷ tail_piece e ∷ es
      unfolding window_pieces
      cut_both_eq h i = ground (arith, window_pieces_placed (e.pos + e.size) es (omega arith) rest)

      pub cut_right_eq :
          pos ≤ e.pos
          → e.pos < end
          → end < e.pos + e.size
          → pieces (e ∷ es) ≡ new_run pos end status ∷ tail_piece e ∷ es
      unfolding window_pieces
      cut_right_eq h i j =
          ground (arith, window_pieces_placed (e.pos + e.size) es (omega arith) rest)

      pub behind_eq : end ≤ e.pos → pieces (e ∷ es) ≡ new_run pos end status ∷ e ∷ es
      unfolding window_pieces
      behind_eq h = ground (arith, window_pieces_placed (e.pos + e.size) es (omega arith) rest)

  pub piece_view :
      (e : MapEntry) (es : List MapEntry)
      → IsSized e
      → IsSorted (e.pos + e.size) es
      → PieceView e es
  piece_view e es s r = elim (dec_le (e.pos + e.size) pos) [
    | yes h ↦ before h (before_eq e es s h)
    | no h ↦ elim (dec_lt e.pos pos) [
      | yes i ↦ elim (dec_le (e.pos + e.size) end) [
        | yes j ↦ cut_left i (omega arith) j (cut_left_eq e es s i (omega arith) j)
        | no j ↦ cut_both i (omega arith) (cut_both_eq e es s r i (omega arith))
      ]
      | no i ↦ elim (dec_le (e.pos + e.size) end) [
        | yes j ↦ covered (omega arith) j (covered_eq e es s (omega arith) j)
        | no j ↦ elim (dec_lt e.pos end) [
          | yes k ↦
              cut_right (omega arith) k (omega arith)
                (cut_right_eq e es s r (omega arith) k (omega arith))
          | no k ↦ behind (omega arith) (behind_eq e es s r (omega arith))
        ]
      ]
    ]
  ]

  -- The pieces are in order and disjoint.
  pub window_pieces-IsSorted :
      (lo : ℕ) (es : List MapEntry) → lo ≤ end → IsSorted lo es → IsSorted (min lo pos) (pieces es)
  unfolding window_pieces
  window_pieces-IsSorted lo [] h s = ground arith
  window_pieces-IsSorted lo (e ∷ es) h s =
      let ih = window_pieces-IsSorted (e.pos + e.size) es in
      let lower = λ (n m : ℕ) (xs : List MapEntry). IsSorted-le n m xs in
      elim (piece_view e es s.1 s.2) [
        | before i eq ↦ rw eq (
          omega arith,
          s.1,
          lower _ (min (e.pos + e.size) pos) _ (omega arith) (ih (omega arith) s.2),
        )
        | cut_left i j k eq ↦ rw eq (
          omega arith,
          omega arith,
          lower _ (min (e.pos + e.size) pos) _ (omega arith) (ih k s.2),
        )
        | covered i j eq ↦ rw eq (lower _ (min (e.pos + e.size) pos) _ (omega arith) (ih j s.2))
        | cut_both i j eq ↦ rw eq (
          omega arith,
          omega arith,
          (
            omega arith,
            omega arith,
            (omega arith, omega arith, lower _ (e.pos + e.size) es (omega arith) s.2),
          ),
        )
        | cut_right i j k eq ↦ rw eq (
          omega arith,
          omega arith,
          (omega arith, omega arith, lower _ (e.pos + e.size) es (omega arith) s.2),
        )
        | behind i eq ↦ rw eq (omega arith, omega arith, (omega arith, s.1, s.2))
      ]

  -- The pieces give the new status to the range, and to every other byte the old one.
  pub status_at-window_pieces :
      (lo : ℕ) (es : List MapEntry) (x : ℕ)
      → lo ≤ end
      → IsSorted lo es
      → status_at (pieces es) x ≡ (if leb pos x && ltb x end then some status else status_at es x)
  unfolding status_at
  status_at-window_pieces lo [] x h s = unfold window_pieces in ground arith
  status_at-window_pieces lo (e ∷ es) x h s =
      let ih = status_at-window_pieces (e.pos + e.size) es x in
      elim (piece_view e es s.1 s.2) [
        | before i eq ↦ rw eq (ground (arith, ih (omega arith) s.2))
        | cut_left i j k eq ↦ rw eq (ground (arith, ih k s.2))
        | covered i j eq ↦ rw eq (ground (arith, ih j s.2))
        | cut_both i j eq ↦ rw eq (ground arith)
        | cut_right i j k eq ↦ rw eq (ground arith)
        | behind i eq ↦ rw eq (ground arith)
      ]
