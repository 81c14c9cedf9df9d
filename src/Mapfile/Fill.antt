-- ===== src/Mapfile/Fill.antt =====
-- The part of `Mapfile::load` of src/recovery/mapfile.rs that follows the parsing: the entries are
-- sorted, overlaps are refused and gaps are filled.
pub mod Gaps
pub mod Sort
pub mod Loaded
pub mod Overlaps
use freemkv_engine.Base.{ℕ, ◌-◌, Bool, List, [], ◌∷◌, ltb, leb, if◌then◌else◌, saturating_add}
use freemkv_engine.Mapfile.Status.{non_tried}
use freemkv_engine.Mapfile.Entry.{MapEntry, run_end, push_coalesced}
use freemkv_engine.Mapfile.State.{Result, ok, err, invalid, overlap}

-- `entries.sort_by_key(|e| e.pos)`, which is stable.
unfoldable pub insert_entry : MapEntry → List MapEntry → List MapEntry
insert_entry e [] = e ∷ []
insert_entry e (f ∷ fs) = if leb e.pos f.pos then e ∷ f ∷ fs else f ∷ insert_entry e fs

unfoldable pub sort_entries : List MapEntry → List MapEntry
sort_entries [] = []
sort_entries (e ∷ es) = insert_entry e (sort_entries es)

-- The entry of a gap.
abbrev pub gap_entry : ℕ → MapEntry → MapEntry
gap_entry cursor e = record { pos = cursor; size = e.pos - cursor; status = non_tried }

abbrev pub fill_gap : ℕ → List MapEntry → MapEntry → List MapEntry
fill_gap cursor filled e =
    if ltb cursor e.pos then push_coalesced filled (gap_entry cursor e) else filled

-- The loop, with its `cursor` and `filled`.
unfoldable pub fill_loop : ℕ → List MapEntry → List MapEntry → Result (List MapEntry)
fill_loop cursor filled [] = ok filled
fill_loop cursor filled (e ∷ es) =
    let rest = fill_loop (run_end e) (push_coalesced (fill_gap cursor filled e) e) es in
    if ltb e.pos cursor then err (invalid overlap) else rest

unfoldable pub fill_entries : List MapEntry → Result (List MapEntry)
fill_entries entries = fill_loop 0 [] (sort_entries entries)

-- `total_size`, from the last entry.
unfoldable pub map_end : List MapEntry → ℕ
map_end [] = 0
map_end (e ∷ []) = run_end e
map_end (e ∷ f ∷ es) = map_end (f ∷ es)
