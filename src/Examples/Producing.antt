-- ===== src/Examples/Producing.antt =====
-- A whole sweep at concrete inputs (src/recovery/mod.rs).
use freemkv_engine.Base.{
  ℕ, ◌≡◌, ◌+◌, refl, true, false, none, some, List, [], ◌∷◌, arith, ◌==◌, if◌then◌else◌,
}
use freemkv_engine.Ranges.{ByteRange, subtract, covered_by}
use freemkv_engine.LibError.{LibError, io_error, is_damage_candidate}
use freemkv_engine.ReadError.{
  for_sweep, on_success, handle_read_error, classify, damage_response, on_damage, jump_or_skip,
  jump_triggered, push_outcome,
}
use freemkv_engine.Section.State.{transferred, failed}
use freemkv_engine.Mapfile.Status.{non_tried, finished}
use freemkv_engine.Mapfile.Entry.{MapEntry, compute_stats}
use freemkv_engine.Mapfile.Runs.{status_at}
use freemkv_engine.Mapfile.State.{Mapfile, ranges_with}
use freemkv_engine.Mapfile.Persist.{Env, record_range}
use freemkv_engine.Delivery.{deliver, went_on}
use freemkv_engine.Delivery.Statuses.{is_settled}
use freemkv_engine.Sweep.{
  SweepSink, map_of, apply, apply_stats, apply_good, apply_fill, fill_loop, sync_if_due,
}
use freemkv_engine.Patch.{sent, buffer, snap_to_sectors}
use freemkv_engine.Producer.{
  SweepEvents, Producer, completed, read_regions, read_region, read_turn, block_bytes, on_read,
  on_failure, act, regions_of,
}
use freemkv_engine.Producer.Turns.{IsReader, Fits}
use freemkv_engine.Producer.Walks.{IsSent, read_regions-IsSent}
use freemkv_engine.Producer.Settled.{SinkEvents, consume}
use freemkv_engine.Producer.Untried.{sweep-tries}

abbrev scratch : LibError
scratch = record {
  variant = io_error;
  scsi_sense = none;
  is_scsi_transport_failure = false;
  is_bridge_degradation = false;
  is_unit_attention = false;
}

-- Sectors are read one by one; the first read goes through, the others fail.
abbrev events : SweepEvents ℕ
events = record {
  cancelled = λ turn. false;
  cancelled_after = λ turn. false;
  read_sectors = λ turn lba count recovery. if turn == 0 then transferred 2048 else failed scratch;
  clock = λ turn. turn;
  bytes = λ turn i. 7;
  send = λ turn. sent;
  send_gap = λ turn. sent;
  slept = λ turn secs. false;
  asks_stats = λ turn. turn == 0;
  unit_block_end = λ first end. first + 1;
  underrun = scratch;
  anchored = λ lba err. err;
  scsi = record {
    not_ready = 2;
    hardware_error = 4;
    illegal_request = 5;
    recovered_error = 1;
    from_sense_key = λ key. key;
    other_family = 0;
  };
  batch = 1;
  skip_on_error = true;
}

abbrev producer : Producer ℕ
producer = record {
  read_ctx = for_sweep 1;
  bytes_done = 0;
  bytes_good_done = 0;
  speed = 65535;
  turn = 0;
  items = [];
}

abbrev sink : SweepSink
sink =
    let entries : List MapEntry =
      record { pos = 0; size = 8192; status = finished }
      ∷ record { pos = 8192; size = 6144; status = non_tried }
      ∷ [] in
    let m : Mapfile = record {
      entries = entries;
      total_size = 14336;
      version = [];
      stats = compute_stats entries 14336;
      dirty = false;
      last_flushed = 0;
      disc_hash = none;
      vidfp = none;
      legacy_keyfps = [];
      scope = none;
      raw = some false;
      disowned = false;
    } in
    record {
      image = record { contents = λ x. none; durable = λ x. none };
      world = record { map = m; disk = record { file = none; tmp = none } };
      is_regular = true;
      channel = none;
    }

abbrev applied : ℕ → SinkEvents
applied n =
    let calm : Env = record {
      now = 500;
      after = 501;
      events = record {
        tmp_error = none;
        partial = none;
        disowned_meanwhile = false;
        disowned_at_rename = false;
        rename_error = none;
        removal_works = true;
      };
    } in
    record {
      checked = calm;
      env = calm;
      file = record {
        seek_error = none;
        write_error = none;
        bytes_left = 0;
        sync_error = none;
        chunks = [];
      };
    }

events-IsReader : IsReader events
events-IsReader = record {
  batch_positive = omega arith;
  moves_back = λ first end h. (omega arith, omega arith);
}

producer-Fits : Fits producer
producer-Fits = record { done = omega arith; good = omega arith }

abbrev regions : List ByteRange
regions = regions_of (map_of sink) none []

sweep-ends : (read_regions events regions producer).0 ≡ completed
unfolding read_regions read_region read_turn block_bytes on_read on_failure act regions_of subtract
    ranges_with snap_to_sectors on_success handle_read_error classify damage_response on_damage
    jump_or_skip jump_triggered push_outcome is_damage_candidate for_sweep
sweep-ends = refl

-- The first sector is sent as good data, the second is skipped, and the third is the gap of a jump.
sweep-counts :
    ((read_regions events regions producer).1.bytes_done ≡ 6144)
    × ((read_regions events regions producer).1.bytes_good_done ≡ 2048)
unfolding read_regions read_region read_turn block_bytes on_read on_failure act regions_of subtract
    ranges_with snap_to_sectors on_success handle_read_error classify damage_response on_damage
    jump_or_skip jump_triggered push_outcome is_damage_candidate for_sweep
sweep-counts = (refl, refl)

consumed-went_on :
    went_on (consume applied (read_regions events regions producer).1.items sink).0 ≡ true
unfolding read_regions read_region read_turn block_bytes on_read on_failure act regions_of subtract
    ranges_with snap_to_sectors on_success handle_read_error classify damage_response on_damage
    jump_or_skip jump_triggered push_outcome is_damage_candidate for_sweep deliver apply apply_stats
    apply_good apply_fill fill_loop sync_if_due record_range buffer
consumed-went_on = refl

read_regions-IsSent_example : IsSent regions producer (read_regions events regions producer)
unfolding regions_of subtract ranges_with
read_regions-IsSent_example =
    read_regions-IsSent events regions producer events-IsReader producer-Fits (omega arith, tt)

sweep-tries_example :
    is_settled (
      status_at
        (map_of (consume applied (read_regions events regions producer).1.items sink).1).entries
        9000)
    ≡ true
sweep-tries_example =
    sweep-tries events producer applied sink none [] 9000 events-IsReader producer-Fits refl
      (
        omega arith,
        (omega arith, omega arith),
        (λ h e. cc),
        (omega arith, (omega arith, omega arith), tt, tt),
      )
      tt tt sweep-ends consumed-went_on (unfold status_at in refl) (unfold covered_by in refl)
      (omega arith)
