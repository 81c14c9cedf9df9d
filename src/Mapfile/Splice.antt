-- ===== src/Mapfile/Splice.antt =====
-- `Mapfile::splice` of src/recovery/mapfile.rs, over the entries and their statistics.
pub mod Window
pub mod Pieces
pub mod Edges
pub mod Rebuild
pub mod Stats
use freemkv_engine.Base.{
  ℕ, ◌-◌, Bool, true, false, not, ◌&&◌, ◌||◌, List, [], ◌∷◌, ◌++◌, foldl, ltb, leb, if◌then◌else◌,
  take, drop, partition_point,
}
use freemkv_engine.Mapfile.Status.{SectorStatus}
use freemkv_engine.Mapfile.Entry.{MapEntry, MapStats, run_end, tally, push_coalesced}

-- `new_run`.
abbrev pub new_run : ℕ → ℕ → SectorStatus → MapEntry
new_run pos end status = record { pos = pos; size = end - pos; status = status }

-- What one entry of the window contributes to `pieces`, and `placed` after it.
unfoldable pub split_entry : ℕ → ℕ → SectorStatus → Bool → MapEntry → List MapEntry × Bool
split_entry pos end status placed e = if leb (run_end e) pos then (e ∷ [], placed) else (
  (if ltb e.pos pos then record { pos = e.pos; size = pos - e.pos; status = e.status } ∷ [] else [])
      ++ (if ltb end (run_end e) && not placed then new_run pos end status ∷ [] else [])
      ++ (if leb end e.pos
          then e ∷ []
          else if ltb end (run_end e)
          then record { pos = end; size = run_end e - end; status = e.status } ∷ []
          else []),
  placed || ltb end (run_end e),
)

-- The loop over the window, and the push after it.
unfoldable pub window_pieces : ℕ → ℕ → SectorStatus → Bool → List MapEntry → List MapEntry
unfolding split_entry
window_pieces pos end status placed [] = if placed then [] else new_run pos end status ∷ []
window_pieces pos end status placed (e ∷ window) =
    let (pieces, placed') = split_entry pos end status placed e in
    pieces ++ window_pieces pos end status placed' window

-- `lo` and `hi`.
abbrev pub window_lo : ℕ → List MapEntry → ℕ
window_lo pos = partition_point (λ e. ltb (run_end e) pos)

abbrev pub window_hi : ℕ → List MapEntry → ℕ
window_hi end = partition_point (λ e. leb e.pos end)

-- `self.entries[lo..hi]`.
abbrev pub window : ℕ → ℕ → List MapEntry → List MapEntry
window pos end entries =
    take (window_hi end entries - window_lo pos entries) (drop (window_lo pos entries) entries)

-- `merged`.
unfoldable pub merged : ℕ → ℕ → SectorStatus → List MapEntry → List MapEntry
unfolding window_pieces push_coalesced
merged pos end status entries =
    foldl push_coalesced [] (window_pieces pos end status false (window pos end entries))

-- The entries after `splice`: `entries[lo..hi]` replaced by `merged`.
unfoldable pub splice_entries : ℕ → ℕ → SectorStatus → List MapEntry → List MapEntry
unfolding merged
splice_entries pos end status entries =
    take (window_lo pos entries) entries
    ++ merged pos end status entries
    ++ drop (window_hi end entries) entries

-- The statistics after `splice`: the window is taken out, `merged` is counted in.
unfoldable pub splice_stats : ℕ → ℕ → SectorStatus → List MapEntry → MapStats → MapStats
unfolding merged tally
splice_stats pos end status entries stats =
    foldl (tally true) (foldl (tally false) stats (window pos end entries))
      (merged pos end status entries)
