-- ===== src/Mapfile/Runs/Coalesce.antt =====
-- The full rebuild of an entry list: it keeps every byte's status and yields maximal runs.
use freemkv_engine.Base.{
  ℕ, ◌+◌, ◌≤◌, ◌≡◌, refl, ap, ◌∙◌, some, List, [], ◌∷◌, ◌++◌, arith, if◌then◌else◌, All, inl, inr,
  Bool-cases,
}
use freemkv_engine.Mapfile.Status.{status_eq-true, status_eq_self}
use freemkv_engine.Mapfile.Entry.{MapEntry, continues}
use freemkv_engine.Mapfile.Runs.{
  covers, status_at, IsSized, Apart, IsSorted, IsRuns, cons_coalesced, coalesce,
}

cons_coalesced-IsRuns :
    (lo : ℕ) (e : MapEntry) (xs : List MapEntry)
    → lo ≤ e.pos
    → IsSized e
    → IsRuns (e.pos + e.size) xs
    → IsRuns lo (cons_coalesced e xs)
unfolding cons_coalesced
cons_coalesced-IsRuns lo e [] h s r = (h, s, tt, tt)
cons_coalesced-IsRuns lo e (f ∷ []) h s r =
    ground (arith, status_eq-true e.status f.status, status_eq_self e.status)
cons_coalesced-IsRuns lo e (f ∷ g ∷ fs) h s r =
    ground (arith, status_eq-true e.status f.status, status_eq_self e.status)

-- The rebuild of any sorted list consists of maximal runs.
pub coalesce-IsRuns : (lo : ℕ) (es : List MapEntry) → IsSorted lo es → IsRuns lo (coalesce es)
unfolding coalesce
coalesce-IsRuns lo [] h = tt
coalesce-IsRuns lo (e ∷ es) h =
    cons_coalesced-IsRuns lo e (coalesce es) h.0 h.1 (coalesce-IsRuns (e.pos + e.size) es h.2)

status_at-cons_coalesced :
    (lo : ℕ) (e : MapEntry) (xs : List MapEntry) (x : ℕ)
    → IsSized e
    → IsRuns (e.pos + e.size) xs
    → status_at (cons_coalesced e xs) x ≡ (if covers e x then some e.status else status_at xs x)
unfolding status_at cons_coalesced
status_at-cons_coalesced lo e [] x s r = refl
status_at-cons_coalesced lo e (f ∷ fs) x s r = ground (arith, status_eq-true e.status f.status)

-- The rebuild keeps the status of every byte.
pub status_at-coalesce :
    (lo : ℕ) (es : List MapEntry) (x : ℕ)
    → IsSorted lo es
    → status_at (coalesce es) x ≡ status_at es x
unfolding status_at coalesce
status_at-coalesce lo [] x h = refl
status_at-coalesce lo (e ∷ es) x h =
    status_at-cons_coalesced lo e (coalesce es) x h.1 (coalesce-IsRuns (e.pos + e.size) es h.2)
    ∙ ap (λ t. if covers e x then some e.status else t)
        (status_at-coalesce (e.pos + e.size) es x h.2)

-- A list of maximal runs is its own rebuild.
pub cons_coalesced-Apart :
    (e : MapEntry) (xs : List MapEntry) → IsSized e → Apart e xs → cons_coalesced e xs ≡ e ∷ xs
unfolding cons_coalesced
cons_coalesced-Apart e [] s a = refl
cons_coalesced-Apart e (f ∷ fs) s a = ground (arith, status_eq-true e.status f.status)

pub coalesce_runs : (lo : ℕ) (es : List MapEntry) → IsRuns lo es → coalesce es ≡ es
unfolding coalesce
coalesce_runs lo [] h = refl
coalesce_runs lo (e ∷ es) h =
    rw (coalesce_runs (e.pos + e.size) es h.3) (cons_coalesced-Apart e es h.1 h.2)

Apart-cons_coalesced :
    (e f : MapEntry) (es xs : List MapEntry) → Apart e (f ∷ es) → Apart e (cons_coalesced f xs)
unfolding cons_coalesced
Apart-cons_coalesced e f es [] a = a
Apart-cons_coalesced e f es (g ∷ xs) a = elim (Bool-cases (continues f g)) [
  | inl c ↦ rw (c, cons_coalesced) a
  | inr c ↦ rw (c, cons_coalesced) a
]

-- The rebuild begins where its list begins, with the same status.
pub Apart-coalesce : (e : MapEntry) (es : List MapEntry) → Apart e es → Apart e (coalesce es)
unfolding coalesce
Apart-coalesce e [] a = tt
Apart-coalesce e (f ∷ es) a = Apart-cons_coalesced e f es (coalesce es) a

-- An entry apart from what follows stays as it is.
pub coalesce-Apart :
    (e : MapEntry) (es : List MapEntry)
    → IsSized e
    → Apart e es
    → coalesce (e ∷ es) ≡ e ∷ coalesce es
unfolding coalesce
coalesce-Apart e es s a = cons_coalesced-Apart e (coalesce es) s (Apart-coalesce e es a)

-- The last entry of the first list does not continue into the second.
abbrev pub LastApart : List MapEntry → List MapEntry → Type 0
LastApart [] after = Unit {0}
LastApart (p ∷ []) after = Apart p after
LastApart (p ∷ q ∷ ps) after = LastApart (q ∷ ps) after

pub LastApart-nil : (ps : List MapEntry) → LastApart ps []
LastApart-nil [] = tt
LastApart-nil (p ∷ []) = tt
LastApart-nil (p ∷ q ∷ ps) = LastApart-nil (q ∷ ps)

pub LastApart-append :
    (ps : List MapEntry) (q : MapEntry) (qs after : List MapEntry)
    → LastApart (q ∷ qs) after
    → LastApart (ps ++ q ∷ qs) after
LastApart-append [] q qs after h = h
LastApart-append (p ∷ []) q qs after h = h
LastApart-append (p ∷ r ∷ ps) q qs after h = LastApart-append (r ∷ ps) q qs after h

cons_coalesced-append :
    (p q : MapEntry) (xs after : List MapEntry)
    → cons_coalesced p (cons_coalesced q xs ++ after)
      ≡ cons_coalesced p (cons_coalesced q xs) ++ after
unfolding cons_coalesced
cons_coalesced-append p q [] after = ground arith
cons_coalesced-append p q (x ∷ xs) after = ground arith

-- A list of runs behind pieces that end apart from it is left alone by the rebuild.
pub coalesce-append :
    (lo : ℕ) (ps after : List MapEntry)
    → All IsSized ps
    → IsRuns lo after
    → LastApart ps after
    → coalesce (ps ++ after) ≡ coalesce ps ++ after
unfolding coalesce
coalesce-append lo [] after s r a = coalesce_runs lo after r
coalesce-append lo (p ∷ []) after s r a =
    rw (coalesce_runs lo after r) (cons_coalesced-Apart p after s.0 a ∙ single)
  where
    single : p ∷ after ≡ cons_coalesced p [] ++ after
    single = unfold cons_coalesced in refl
coalesce-append lo (p ∷ q ∷ ps) after s r a =
    rw (coalesce-append lo (q ∷ ps) after s.1 r a) (cons_coalesced-append p q (coalesce ps) after)
