-- ===== src/Mapfile/Entry.antt =====
-- `MapEntry`, `MapStats`, `tally`, `compute_stats` and `push_coalesced` of src/recovery/mapfile.rs.
use freemkv_engine.Base.{
  ℕ, Bool, true, ◌&&◌, List, [], ◌∷◌, foldl, ◌==◌, if◌then◌else◌, saturating_add,
  saturating_add_u32, saturating_sub,
}
use freemkv_engine.Mapfile.Status.{
  SectorStatus, non_tried, non_trimmed, non_scraped, unreadable, finished, status_eq,
}

-- `MapEntry`.
pub record MapEntry : Type 0 where
  pub pos : ℕ
  pub size : ℕ
  pub status : SectorStatus

-- `MapStats`, less `main_lost_ms`, which the engine leaves at 0.0.
pub record MapStats : Type 0 where
  pub bytes_total : ℕ
  pub bytes_good : ℕ
  pub bytes_unreadable : ℕ
  pub bytes_pending : ℕ
  pub bytes_nontried : ℕ
  pub bytes_retryable : ℕ
  pub num_bad_ranges : ℕ

abbrev pub run_end : MapEntry → ℕ
run_end e = saturating_add e.pos e.size

-- The closure `f` of `tally`.
abbrev pub adjust : Bool → ℕ → ℕ → ℕ
adjust add n v = if add then saturating_add v n else saturating_sub v n

abbrev pub adjust_ranges : Bool → ℕ → ℕ
adjust_ranges add v = if add then saturating_add_u32 v 1 else saturating_sub v 1

-- The match of `tally`, by the entry's status.
abbrev pub tally_as : SectorStatus → ℕ → Bool → MapStats → MapStats
tally_as finished n add s = record s { bytes_good = adjust add n s.bytes_good }
tally_as unreadable n add s = record s {
  bytes_unreadable = adjust add n s.bytes_unreadable;
  num_bad_ranges = adjust_ranges add s.num_bad_ranges;
}
tally_as non_tried n add s = record s {
  bytes_pending = adjust add n s.bytes_pending;
  bytes_nontried = adjust add n s.bytes_nontried;
}
tally_as non_trimmed n add s = record s {
  bytes_pending = adjust add n s.bytes_pending;
  bytes_retryable = adjust add n s.bytes_retryable;
}
tally_as non_scraped n add s = record s {
  bytes_pending = adjust add n s.bytes_pending;
  bytes_retryable = adjust add n s.bytes_retryable;
}

-- `tally`.
unfoldable pub tally : Bool → MapStats → MapEntry → MapStats
tally add s e = tally_as e.status e.size add s

-- `..Default::default()` with the total set.
abbrev pub zero_stats : ℕ → MapStats
zero_stats total = record {
  bytes_total = total;
  bytes_good = 0;
  bytes_unreadable = 0;
  bytes_pending = 0;
  bytes_nontried = 0;
  bytes_retryable = 0;
  num_bad_ranges = 0;
}

-- `Mapfile::compute_stats`.
unfoldable pub compute_stats : List MapEntry → ℕ → MapStats
compute_stats entries total_size = foldl (tally true) (zero_stats total_size) entries

-- The test of `push_coalesced`: `e` continues the run of `last`.
abbrev pub continues : MapEntry → MapEntry → Bool
continues last e = run_end last == e.pos && status_eq last.status e.status

-- `push_coalesced`.
unfoldable pub push_coalesced : List MapEntry → MapEntry → List MapEntry
push_coalesced [] e = e ∷ []
push_coalesced (last ∷ []) e =
    if continues last e
    then record last { size = saturating_add last.size e.size } ∷ []
    else last ∷ e ∷ []
push_coalesced (x ∷ y ∷ out) e = x ∷ push_coalesced (y ∷ out) e
