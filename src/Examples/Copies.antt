-- ===== src/Examples/Copies.antt =====
-- The identity check and the copy dispatch at concrete inputs (src/recovery/mapfile.rs and
-- src/recovery/mod.rs).
use freemkv_engine.Base.{
  ℕ, ◌≡◌, refl, Bool, true, false, Option, none, some, List, [], ◌∷◌, arith, nats_eq,
}
use freemkv_engine.Mapfile.Status.{SectorStatus, finished, non_tried}
use freemkv_engine.Mapfile.Entry.{compute_stats, tally}
use freemkv_engine.Mapfile.Runs.{status_at}
use freemkv_engine.Mapfile.State.{Mapfile, Error, ok, err, invalid, disc_mismatch, raw_eq}
use freemkv_engine.Mapfile.Persist.{Disk, Env}
use freemkv_engine.Mapfile.Fill.{map_end}
use freemkv_engine.Mapfile.Load.{Library}
use freemkv_engine.Mapfile.Identity.{
  DiscIdentity, Disc, identity_of, stamp_identity, check_identity,
}
use freemkv_engine.Mapfile.Identity.Stamp.{check_identity-stamp_identity, check_identity_foreign}
use freemkv_engine.Copy.{
  Request, CopyResult, regular, done, copy_titled, image_intact, new_result, by_load, by_identity,
  widen, by_map, by_stats, map_stats,
}
use freemkv_engine.Copy.Complete.{copy_titled-complete}
use freemkv_engine.Copy.Refusal.{copy_titled_continues}

-- A library whose hash parser takes any text for its own bytes.
abbrev library : Library
library = record { parse_hex_fixed = λ n cs. some cs; sha256 = λ tag bytes. bytes }

abbrev inserted : Disc
inserted = record { intrinsic_id = some (1 ∷ []); aacs_volume_id = some (2 ∷ []) }

abbrev nowhere : Disk
nowhere = record { file = none; tmp = none }

abbrev calm : Env
calm = record {
  now = 5000;
  after = 5001;
  events = record {
    tmp_error = none;
    partial = none;
    disowned_meanwhile = false;
    disowned_at_rename = false;
    rename_error = none;
    removal_works = true;
  };
}

abbrev map_of : SectorStatus → Option (List ℕ) → Mapfile
map_of status fingerprint =
    let entries = record { pos = 0; size = 1000; status = status } ∷ [] in
    record {
      entries = entries;
      total_size = 1000;
      version = [];
      stats = compute_stats entries 1000;
      dirty = false;
      last_flushed = 0;
      disc_hash = none;
      vidfp = fingerprint;
      legacy_keyfps = [];
      scope = none;
      raw = some false;
      disowned = false;
    }

abbrev done_map : Mapfile
done_map = map_of finished (some (2 ∷ []))

check_identity-stamp_identity_example :
    check_identity
      (stamp_identity library done_map inserted none)
      (identity_of library inserted none)
    ≡ ok tt
check_identity-stamp_identity_example =
    check_identity-stamp_identity library done_map inserted none refl

-- Another disc, of volume 9.
abbrev other : DiscIdentity
other = record { disc_hash = none; vidfp = some (9 ∷ []); proven = [] }

check_identity_foreign_example :
    check_identity (stamp_identity library done_map inserted none) other
    ≡ err (invalid disc_mismatch)
check_identity_foreign_example =
    check_identity_foreign library done_map inserted none other (unfold nats_eq in refl)

-- A copy of 1000 bytes, with an image of that length.
abbrev asked : DiscIdentity → Request
asked identity = record {
  decryptable = none;
  debussable = none;
  readable = none;
  capacity_bytes = 1000;
  identity = identity;
  decrypt = true;
  multipass = true;
  image = regular 1000;
}

abbrev same : DiscIdentity
same = record { disc_hash = none; vidfp = some (2 ∷ []); proven = [] }

abbrev is_invalid : Error → Bool
is_invalid (invalid _) = true
is_invalid _ = false

abbrev finished_copy : CopyResult
finished_copy = record {
  bytes_total = 1000;
  bytes_good = 1000;
  bytes_unreadable = 0;
  bytes_pending = 0;
  recovered_this_pass = 0;
  complete = true;
  halted = false;
}

dispatch-done :
    copy_titled is_invalid (asked same) calm calm (some (ok done_map)) nowhere
    ≡ (done finished_copy, nowhere)
unfolding copy_titled by_load by_identity check_identity nats_eq widen by_map by_stats map_stats
    new_result image_intact compute_stats tally
dispatch-done = refl

copy_titled-complete_example :
    (status_at done_map.entries 7 ≡ some finished)
    × (image_intact (asked same).image 1000 ≡ some true)
copy_titled-complete_example =
    copy_titled-complete is_invalid (asked same) calm calm done_map nowhere nowhere finished_copy 7
      (omega arith, (omega arith, omega arith), tt, tt) (refl, tt) refl (unfold map_end in refl)
      (omega arith) dispatch-done refl (omega arith)

-- A swept map with a stretch that was never tried.
abbrev untried_map : Mapfile
untried_map = map_of non_tried (some (2 ∷ []))

copy_titled_continues_example :
    (check_identity untried_map same ≡ ok tt)
    × (untried_map.total_size ≡ 1000)
    × (raw_eq untried_map.raw true ≡ false)
unfolding copy_titled by_load by_identity check_identity nats_eq widen by_map by_stats map_stats
    image_intact compute_stats tally
copy_titled_continues_example =
    copy_titled_continues is_invalid (asked same) calm calm untried_map nowhere refl
