-- ===== src/Mapfile/Fill/Overlaps.antt =====
-- Which entries `Mapfile::load` of src/recovery/mapfile.rs refuses: those of which two overlap.
use freemkv_engine.Base.{
  if◌then◌else◌, ℕ, ◌+◌, ◌≤◌, ◌≡◌, refl, ap, ◌∙◌, Bool, true, ◌&&◌, ◌||◌, Option, none, some, List,
  [], ◌∷◌, arith, leb, All,
}
use freemkv_engine.Mapfile.Entry.{MapEntry}
use freemkv_engine.Mapfile.Runs.{IsSized}
use freemkv_engine.Mapfile.State.{Error, Result, ok, err, invalid, overlap}
use freemkv_engine.Mapfile.Fill.{insert_entry, sort_entries, fill_entries}
use freemkv_engine.Mapfile.Fill.Gaps.{in_order}
use freemkv_engine.Mapfile.Fill.Sort.{sort_entries-All}
use freemkv_engine.Mapfile.Fill.Loaded.{fill_entries-eq-loaded}

-- One of the two entries ends before the other begins.
abbrev pub disjoint : MapEntry → MapEntry → Bool
disjoint e f = leb (e.pos + e.size) f.pos || leb (f.pos + f.size) e.pos

abbrev pub disjoint_from : MapEntry → List MapEntry → Bool
disjoint_from e [] = true
disjoint_from e (f ∷ fs) = disjoint e f && disjoint_from e fs

-- No two entries of the list overlap, in whatever order they are.
abbrev pub none_overlap : List MapEntry → Bool
none_overlap [] = true
none_overlap (e ∷ es) = disjoint_from e es && none_overlap es

-- All entries begin at a position or after it.
abbrev all_from : ℕ → List MapEntry → Bool
all_from p [] = true
all_from p (e ∷ es) = leb p e.pos && all_from p es

abbrev IsAscending : List MapEntry → Type 0
IsAscending [] = Unit {0}
IsAscending (e ∷ es) = (all_from e.pos es ≡ true) × IsAscending es

disjoint_from-insert_entry :
    (e f : MapEntry) (fs : List MapEntry)
    → disjoint_from e (insert_entry f fs) ≡ (disjoint e f && disjoint_from e fs)
unfolding insert_entry
disjoint_from-insert_entry e f [] = refl
disjoint_from-insert_entry e f (g ∷ fs) = ground (arith, disjoint_from-insert_entry e f fs)

swapped : (d d' a b c : Bool) → d ≡ d' → ((d && a) && (b && c)) ≡ ((d' && b) && (a && c))
swapped d d' a b c e = ground arith

none_overlap-insert_entry :
    (e : MapEntry) (es : List MapEntry)
    → none_overlap (insert_entry e es) ≡ (disjoint_from e es && none_overlap es)
unfolding insert_entry
none_overlap-insert_entry e [] = refl
none_overlap-insert_entry e (f ∷ fs) =
    ground (arith, disjoint_from-insert_entry f e fs, none_overlap-insert_entry e fs)

disjoint_from-sort_entries :
    (e : MapEntry) (es : List MapEntry) → disjoint_from e (sort_entries es) ≡ disjoint_from e es
unfolding sort_entries
disjoint_from-sort_entries e [] = refl
disjoint_from-sort_entries e (f ∷ fs) =
    disjoint_from-insert_entry e f (sort_entries fs)
    ∙ ap (λ b. disjoint e f && b) (disjoint_from-sort_entries e fs)

none_overlap-sort_entries : (es : List MapEntry) → none_overlap (sort_entries es) ≡ none_overlap es
unfolding sort_entries
none_overlap-sort_entries [] = refl
none_overlap-sort_entries (e ∷ es) =
    none_overlap-insert_entry e (sort_entries es)
    ∙ rw (none_overlap-sort_entries es)
        (ap (λ b. b && none_overlap es) (disjoint_from-sort_entries e es))

all_from-insert_entry :
    (p : ℕ) (e : MapEntry) (es : List MapEntry)
    → all_from p (insert_entry e es) ≡ (leb p e.pos && all_from p es)
unfolding insert_entry
all_from-insert_entry p e [] = refl
all_from-insert_entry p e (f ∷ fs) = ground (arith, all_from-insert_entry p e fs)

lower-all_from :
    (p q : ℕ) (es : List MapEntry) → p ≤ q → all_from q es ≡ true → all_from p es ≡ true
lower-all_from p q [] h a = refl
lower-all_from p q (e ∷ es) h a = ground (arith, lower-all_from p q es h)

insert_entry-IsAscending :
    (e : MapEntry) (es : List MapEntry) → IsAscending es → IsAscending (insert_entry e es)
unfolding insert_entry
insert_entry-IsAscending e [] a = (refl, tt)
insert_entry-IsAscending e (f ∷ fs) a = ground (
  arith,
  lower-all_from e.pos f.pos fs,
  all_from-insert_entry f.pos e fs,
  insert_entry-IsAscending e fs a.1,
)

sort_entries-IsAscending : (es : List MapEntry) → IsAscending (sort_entries es)
unfolding sort_entries
sort_entries-IsAscending [] = tt
sort_entries-IsAscending (e ∷ es) =
    insert_entry-IsAscending e (sort_entries es) (sort_entries-IsAscending es)

-- In an ascending list, what lies apart from an entry before it begins at its end or later.
disjoint_from-ascending :
    (e : MapEntry) (es : List MapEntry)
    → All IsSized es
    → all_from e.pos es ≡ true
    → disjoint_from e es ≡ all_from (e.pos + e.size) es
disjoint_from-ascending e [] s a = refl
disjoint_from-ascending e (f ∷ fs) s a = ground (arith, s.0, disjoint_from-ascending e fs s.1)

in_order-none_overlap :
    (p : ℕ) (es : List MapEntry)
    → All IsSized es
    → IsAscending es
    → in_order p es ≡ (all_from p es && none_overlap es)
in_order-none_overlap p [] s a = refl
in_order-none_overlap p (e ∷ es) s a = ground (
  arith,
  in_order-none_overlap (e.pos + e.size) es s.1 a.1,
  disjoint_from-ascending e es s.1 a.0,
  lower-all_from p e.pos es,
)

all_from_zero : (es : List MapEntry) → all_from 0 es ≡ true
all_from_zero [] = refl
all_from_zero (e ∷ es) = ground (arith, all_from_zero es)

in_order-sort_entries :
    (es : List MapEntry) → All IsSized es → in_order 0 (sort_entries es) ≡ none_overlap es
in_order-sort_entries es s =
    in_order-none_overlap 0 (sort_entries es) (sort_entries-All es s) (sort_entries-IsAscending es)
    ∙ ap (λ b. b && none_overlap (sort_entries es)) (all_from_zero (sort_entries es))
    ∙ none_overlap-sort_entries es

abbrev pub refusal : {A : Type 0} → Result A → Option Error
refusal (ok a) = none
refusal (err e) = some e

-- Loading non-empty entries that end within u64, in whatever order they are, goes through exactly
-- where no two of them overlap; where two do, it is refused as an overlap.
pub fill_entries-none_overlap :
    (es : List MapEntry)
    → All IsSized es
    → refusal (fill_entries es) ≡ (if none_overlap es then none else some (invalid overlap))
fill_entries-none_overlap es s =
    ground (arith, fill_entries-eq-loaded es s, in_order-sort_entries es s)
