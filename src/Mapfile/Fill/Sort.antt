-- ===== src/Mapfile/Fill/Sort.antt =====
-- `sort_by_key` on the entries (src/recovery/mapfile.rs).
use freemkv_engine.Base.{ℕ, ◌+◌, ◌≤◌, ◌≡◌, refl, List, [], ◌∷◌, arith, All}
use freemkv_engine.Mapfile.Entry.{MapEntry}
use freemkv_engine.Mapfile.Runs.{status_at, IsSized, IsSorted}
use freemkv_engine.Mapfile.Fill.{insert_entry, sort_entries}

insert_entry-All :
    (e : MapEntry) (es : List MapEntry)
    → IsSized e
    → All IsSized es
    → All IsSized (insert_entry e es)
unfolding insert_entry
insert_entry-All e [] h s = (h, tt)
insert_entry-All e (f ∷ fs) h s = ground (arith, insert_entry-All e fs h s.1)

pub sort_entries-All : (es : List MapEntry) → All IsSized es → All IsSized (sort_entries es)
unfolding sort_entries
sort_entries-All [] s = tt
sort_entries-All (e ∷ es) s = insert_entry-All e (sort_entries es) s.0 (sort_entries-All es s.1)

-- What is sorted with one entry more is sorted without it.
insert_entry-IsSorted :
    (lo : ℕ) (e : MapEntry) (es : List MapEntry)
    → IsSorted lo (insert_entry e es)
    → (lo ≤ e.pos) × IsSorted lo es
unfolding insert_entry
insert_entry-IsSorted lo e [] s = (s.0, tt)
insert_entry-IsSorted lo e (f ∷ fs) s = ground (arith, insert_entry-IsSorted (f.pos + f.size) e fs)

status_at-insert_entry :
    (lo x : ℕ) (e : MapEntry) (es : List MapEntry)
    → IsSorted lo (insert_entry e es)
    → status_at (insert_entry e es) x ≡ status_at (e ∷ es) x
unfolding insert_entry status_at
status_at-insert_entry lo x e [] s = refl
status_at-insert_entry lo x e (f ∷ fs) s = ground (
  arith,
  insert_entry-IsSorted (f.pos + f.size) e fs,
  status_at-insert_entry (f.pos + f.size) x e fs,
)

-- Sorting disjoint entries keeps every byte's status.
pub status_at-sort_entries :
    (x : ℕ) (es : List MapEntry)
    → IsSorted 0 (sort_entries es)
    → status_at (sort_entries es) x ≡ status_at es x
unfolding sort_entries status_at
status_at-sort_entries x [] s = refl
status_at-sort_entries x (e ∷ es) s = ground (
  arith,
  status_at-insert_entry 0 x e (sort_entries es) s,
  insert_entry-IsSorted 0 e (sort_entries es) s,
  status_at-sort_entries x es,
)

insert_entry_first :
    (lo : ℕ) (e : MapEntry) (es : List MapEntry) → IsSorted lo (e ∷ es) → insert_entry e es ≡ e ∷ es
unfolding insert_entry
insert_entry_first lo e [] s = refl
insert_entry_first lo e (f ∷ fs) s = ground arith

-- What is sorted stays as it is.
pub sort_entries_sorted : (lo : ℕ) (es : List MapEntry) → IsSorted lo es → sort_entries es ≡ es
unfolding sort_entries
sort_entries_sorted lo [] s = refl
sort_entries_sorted lo (e ∷ es) s =
    rw (sort_entries_sorted (e.pos + e.size) es s.2) (insert_entry_first lo e es s)
