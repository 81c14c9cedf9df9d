-- ===== src/Examples/Loading.antt =====
-- Mapfiles that are loaded, opened and checked (src/recovery/mapfile.rs), at concrete inputs.
use freemkv_engine.Base.{
  ℕ, ◌+◌, ◌*◌, ◌/◌, ◌%◌, ◌≤◌, ◌≡◌, refl, true, false, Option, none, some, List, [], ◌∷◌, arith,
  ◌==◌, if◌then◌else◌, length, All, ltb, ap,
}
use freemkv_engine.Text.{Chars, chars, to_digit, is_whitespace}
use freemkv_engine.Mapfile.Status.{
  SectorStatus, non_tried, non_trimmed, finished, to_char, status_eq,
}
use freemkv_engine.Mapfile.Entry.{MapEntry, compute_stats, push_coalesced}
use freemkv_engine.Mapfile.Runs.{status_at, IsRuns, IsSized}
use freemkv_engine.Mapfile.State.{Mapfile, ok, invalid, overlap}
use freemkv_engine.Mapfile.Persist.{Env, World}
use freemkv_engine.Mapfile.Persist.Steps.{here, IsConsistent}
use freemkv_engine.Mapfile.Render.{
  hex_digit, hex_lower, render, render_lines, unlines, entry_lines, entry_line, hex_field, to_hex,
  hex_onto, zeros, keyfp_lines, scope_list,
}
use freemkv_engine.Mapfile.Fill.Overlaps.{refusal, none_overlap, fill_entries-none_overlap}
use freemkv_engine.Mapfile.Fill.{fill_entries, sort_entries, insert_entry, fill_loop, map_end}
use freemkv_engine.Mapfile.Fill.Gaps.{or_nontried}
use freemkv_engine.Mapfile.Fill.Loaded.{status_at-fill_entries}
use freemkv_engine.Mapfile.Load.{Library, load, utf8_length}
use freemkv_engine.Mapfile.Load.Numbers.{to_digit-hex_digit}
use freemkv_engine.Mapfile.Load.Headers.{IsBytes, ReadsHex}
use freemkv_engine.Mapfile.Load.Written.{IsWritable}
use freemkv_engine.Mapfile.Load.RoundTrip.{load-render}
use freemkv_engine.Mapfile.Load.Open.{open_or_create, open_or_create-Reach}

-- A parser of hexadecimal bytes, in place of libfreemkv's.
abbrev pair_digits : Option ℕ → Option ℕ → Option (List ℕ) → Option (List ℕ)
pair_digits (some a) (some b) (some bytes) = some ((a * 16 + b) ∷ bytes)
pair_digits _ _ _ = none

unfoldable read_bytes : Chars → Option (List ℕ)
read_bytes [] = some []
read_bytes (a ∷ []) = none
read_bytes (a ∷ b ∷ cs) = pair_digits (to_digit 16 a) (to_digit 16 b) (read_bytes cs)

abbrev of_length : ℕ → Option (List ℕ) → Option (List ℕ)
of_length n none = none
of_length n (some bytes) = if length bytes == n then some bytes else none

abbrev library : Library
library = record {
  parse_hex_fixed = λ n cs. of_length n (read_bytes cs);
  sha256 = λ tag bytes. bytes;
}

read_bytes-hex_lower :
    (bytes : List ℕ) → All (λ b. b ≤ 255) bytes → read_bytes (hex_lower bytes) ≡ some bytes
unfolding read_bytes hex_lower
read_bytes-hex_lower [] h = refl
read_bytes-hex_lower (b ∷ bytes) h =
    rw
      (
        to_digit-hex_digit (b / 16) (omega arith),
        to_digit-hex_digit (b % 16) (omega arith),
        read_bytes-hex_lower bytes h.1,
      )
      (ap (λ t. some (t ∷ bytes)) (omega arith))

library-ReadsHex : ReadsHex library
library-ReadsHex = record {
  reads_hex = λ n bytes h. rw (read_bytes-hex_lower bytes h.1) (ground arith);
}

abbrev entry : ℕ → ℕ → SectorStatus → MapEntry
entry pos size status = record { pos = pos; size = size; status = status }

-- Parsed entries out of order, with a gap before each.
abbrev holed : List MapEntry
holed = entry 100 50 non_trimmed ∷ entry 10 40 finished ∷ []

abbrev filled : List MapEntry
filled =
    entry 0 10 non_tried
    ∷ entry 10 40 finished
    ∷ entry 50 50 non_tried
    ∷ entry 100 50 non_trimmed
    ∷ []

holed-IsSized : All IsSized holed
holed-IsSized = (omega arith, (omega arith, tt))

fill-holed : fill_entries holed ≡ ok filled
unfolding fill_entries sort_entries insert_entry fill_loop push_coalesced status_eq
fill-holed = refl

fill_entries-none_overlap_example :
    refusal (fill_entries holed) ≡ (if none_overlap holed then none else some (invalid overlap))
fill_entries-none_overlap_example = fill_entries-none_overlap holed holed-IsSized

-- The entries of `holed` are out of order, and do not overlap.
holed-none_overlap : none_overlap holed ≡ true
holed-none_overlap = refl

-- Two entries that overlap are refused.
overlapping_refused :
    refusal (fill_entries (entry 100 50 non_trimmed ∷ entry 10 91 finished ∷ []))
    ≡ some (invalid overlap)
unfolding fill_entries sort_entries insert_entry fill_loop push_coalesced status_eq
overlapping_refused = refl

status_at-fill_entries_example :
    IsRuns 0 filled
    × (status_at filled 70
        ≡ (if ltb 70 (map_end filled) then or_nontried (status_at holed 70) else none))
status_at-fill_entries_example = status_at-fill_entries holed filled 70 holed-IsSized fill-holed

-- A mapfile of three runs, with a disc hash and a scope.
abbrev twenty : List ℕ
twenty =
    222 ∷ 173 ∷ 0 ∷ 1 ∷ 2 ∷ 3 ∷ 4 ∷ 5 ∷ 6 ∷ 7 ∷ 8 ∷ 9 ∷ 10 ∷ 11 ∷ 12 ∷ 13 ∷ 14 ∷ 15 ∷ 16 ∷ 17 ∷ []

twenty-IsBytes : IsBytes 20 twenty
twenty-IsBytes = (refl, ground arith)

abbrev three_runs : List MapEntry
three_runs = entry 0 100 finished ∷ entry 100 50 non_trimmed ∷ entry 150 850 non_tried ∷ []

abbrev staged : Mapfile
staged = record {
  entries = three_runs;
  total_size = 1000;
  version = chars "freemkv-engine v1";
  stats = compute_stats three_runs 1000;
  dirty = false;
  last_flushed = 0;
  disc_hash = some (hex_lower twenty);
  vidfp = none;
  legacy_keyfps = [];
  scope = some ((0, 100) ∷ (150, 50) ∷ []);
  raw = some false;
  disowned = false;
}

three_runs-IsRuns : IsRuns 0 three_runs
three_runs-IsRuns = (
  omega arith,
  (omega arith, omega arith),
  (λ _ e. ground arith),
  (
    omega arith,
    (omega arith, omega arith),
    (λ _ e. ground arith),
    (omega arith, (omega arith, omega arith), tt, tt),
  ),
)

staged-IsWritable : IsWritable staged
staged-IsWritable = record {
  runs = three_runs-IsRuns;
  gapless = (refl, (refl, (refl, tt)));
  total = unfold map_end in refl;
  counted = refl;
  version_end = unfold is_whitespace in refl;
  version_line = refl;
  hash = (twenty, twenty-IsBytes, refl);
  fingerprint = tt;
  keys = tt;
  scoped = omega arith;
}

staged_size : utf8_length (render staged) ≤ 268435456
unfolding utf8_length render render_lines unlines entry_lines entry_line hex_field to_hex hex_onto
    hex_digit zeros hex_lower scope_list keyfp_lines to_char
staged_size = omega arith

load-render_example :
    load library 7 none (some (render staged))
    ≡ ok (record staged { dirty = false; last_flushed = 7; disowned = false })
load-render_example = load-render library 7 staged library-ReadsHex staged-IsWritable staged_size

-- The staged mapfile beside its file.
abbrev on_disk : World
on_disk = record { map = staged; disk = record { file = some (render staged); tmp = none } }

on_disk-IsConsistent : IsConsistent on_disk
on_disk-IsConsistent = record { runs = three_runs-IsRuns; synced = λ _ _. refl }

abbrev calm : Env
calm = record {
  now = 5000;
  after = 5001;
  events = record {
    tmp_error = none;
    partial = none;
    disowned_meanwhile = false;
    disowned_at_rename = false;
    rename_error = none;
    removal_works = true;
  };
}

open_or_create-Reach_example :
    open_or_create library calm none 1000 (chars "freemkv-engine v1") on_disk.disk
    ≡ (ok (record on_disk { map = record staged { last_flushed = 5000 } }), on_disk.disk)
open_or_create-Reach_example =
    open_or_create-Reach library calm 1000 (chars "freemkv-engine v1") library-ReadsHex here
      on_disk-IsConsistent refl refl staged-IsWritable staged_size
