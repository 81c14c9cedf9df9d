-- ===== src/Examples/Passes.antt =====
-- A patch pass at concrete inputs (src/recovery/patch.rs).
use freemkv_engine.Base.{
  ℕ, ◌≡◌, refl, true, false, none, some, List, [], ◌∷◌, arith, ◌==◌, if◌then◌else◌,
}
use freemkv_engine.Ranges.{ByteRange, covered_by}
use freemkv_engine.LibError.{LibError, io_error, is_damage_candidate}
use freemkv_engine.SubRanges.{contains, remove}
use freemkv_engine.Section.Handlers
use freemkv_engine.Section.Specialists
use freemkv_engine.Section.Chain.{run_handlers, build_flat_pool, recover}
use freemkv_engine.Section.Read.{check_past, check_timed, read_span, read_span_as, prime_read}
use freemkv_engine.Mapfile.Status.{non_trimmed}
use freemkv_engine.Mapfile.Entry.{compute_stats}
use freemkv_engine.Mapfile.Runs.{status_at}
use freemkv_engine.Mapfile.State.{Mapfile, Result}
use freemkv_engine.Mapfile.Persist.{Env, record_range}
use freemkv_engine.Section.State.{Surroundings, ReadAnswer, failed, transferred, claim, verdict}
use freemkv_engine.Patch.{
  PatchCtx, SectionEvents, sent, PassResult, completed, run, run_sections, sections_of,
  order_ranges, recover_section, send_residue, recovered_items, buffer,
}
use freemkv_engine.Patch.Account.{items_cover}
use freemkv_engine.Patch.Sink.{PatchSink, ApplyEvents, apply, apply_all, republish}
use freemkv_engine.Sweep.{apply_good, sync_if_due}
use freemkv_engine.Delivery.{Flow, deliver, went_on}
use freemkv_engine.Patch.Pass.{run-is_settled}
use freemkv_engine.Delivery.Statuses.{is_settled}

abbrev scratch : LibError
scratch = record {
  variant = io_error;
  scsi_sense = none;
  is_scsi_transport_failure = false;
  is_bridge_degradation = false;
  is_unit_attention = false;
}

-- A drive all of whose reads get the answer.
abbrev drive : ReadAnswer → Surroundings
drive answer = record {
  read = λ turn. answer;
  refusal = λ turn. none;
  clock = λ turn. turn;
  halt = λ turn. false;
  underrun = scratch;
  is_wedge_family = λ key. false;
  capacity_sectors = 0;
}

-- The first section reads back, the others do not.
abbrev section_events : ℕ → SectionEvents
section_events idx = record {
  cancelled = false;
  cancelled_after = false;
  surroundings = drive (if idx == 0 then transferred 2048 else failed scratch);
  took = λ n. true;
  bytes = λ n i. 7;
  residue = λ n. sent;
  order = λ handlers. handlers;
  budget = 60000;
}

abbrev new_pass : PatchCtx
new_pass = record {
  is_halted = false;
  wedged_exit = false;
  wedge_streak = 0;
  drive_speed = none;
  items = [];
}

abbrev damage : List ByteRange
damage = (2148, 100) ∷ (8292, 100) ∷ []

abbrev pass : PassResult × List (List ByteRange) × PatchCtx
pass = run true (λ tier idx. section_events idx) damage new_pass

-- The first section was recovered, the second is residue.
pass-ends : (pass.0 ≡ PassResult.ok completed) × (pass.1 ≡ [] ∷ ((8192, 2048) ∷ []) ∷ [])
unfolding run run_sections sections_of order_ranges recover_section run_handlers build_flat_pool
    recover Handlers.bisect Handlers.bisect_loop Handlers.jump Handlers.jump_range Handlers.linear
    Handlers.linear_range Handlers.island Handlers.expand_forward Handlers.expand_backward
    Specialists.cache_prime Specialists.warm_range Specialists.prime_before Specialists.oscillate
    Specialists.oscillate_range Specialists.oscillate_sector Specialists.prime_claim
    Specialists.from_above Specialists.prime_above_is_in_range Specialists.speed_sweep
    Specialists.speed_range Specialists.sweep_speeds check_past check_timed read_span read_span_as
    prime_read contains claim verdict remove send_residue is_damage_candidate
pass-ends = (refl, refl)

abbrev calm : Env
calm = record {
  now = 500;
  after = 501;
  events = record {
    tmp_error = none;
    partial = none;
    disowned_meanwhile = false;
    disowned_at_rename = false;
    rename_error = none;
    removal_works = true;
  };
}

abbrev applied : ℕ → ApplyEvents
applied n = record {
  checked = calm;
  env = calm;
  file = record {
    seek_error = none;
    write_error = none;
    bytes_left = 0;
    sync_error = none;
    chunks = [];
  };
  now = 0;
}

abbrev consumer : PatchSink
consumer =
    let entries = record { pos = 0; size = 12288; status = non_trimmed } ∷ [] in
    let m : Mapfile = record {
      entries = entries;
      total_size = 12288;
      version = [];
      stats = compute_stats entries 12288;
      dirty = false;
      last_flushed = 0;
      disc_hash = none;
      vidfp = none;
      legacy_keyfps = [];
      scope = none;
      raw = some false;
      disowned = false;
    } in
    record {
      file = record { contents = λ x. none; durable = λ x. none };
      world = record { map = m; disk = record { file = none; tmp = none } };
      is_regular = true;
      shared = record {
        stats = compute_stats entries 12288;
        bad_bytes_in_title = 0;
        damage_in_scope = 0;
      };
      title_bytes = λ ranges. 0;
      last_republish = some 0;
    }

abbrev consumed : Result Flow × PatchSink
consumed = apply_all applied 0 pass.2.items consumer

consumed-went_on : went_on consumed.0 ≡ true
unfolding run run_sections sections_of order_ranges recover_section run_handlers build_flat_pool
    recover Handlers.bisect Handlers.bisect_loop Handlers.jump Handlers.jump_range Handlers.linear
    Handlers.linear_range Handlers.island Handlers.expand_forward Handlers.expand_backward
    Specialists.cache_prime Specialists.warm_range Specialists.prime_before Specialists.oscillate
    Specialists.oscillate_range Specialists.oscillate_sector Specialists.prime_claim
    Specialists.from_above Specialists.prime_above_is_in_range Specialists.speed_sweep
    Specialists.speed_range Specialists.sweep_speeds check_past check_timed read_span read_span_as
    prime_read contains claim verdict remove send_residue is_damage_candidate deliver apply
    apply_good sync_if_due record_range republish recovered_items buffer
consumed-went_on = refl

run-is_settled_example :
    (covered_by damage 2048 ≡ true
      → is_settled (status_at consumed.1.world.map.entries 2048) ≡ true)
    × (items_cover pass.2.items 2048 ≡ false
        → status_at consumed.1.world.map.entries 2048 ≡ status_at consumer.world.map.entries 2048)
run-is_settled_example =
    run-is_settled true (λ tier idx. section_events idx) damage new_pass applied consumer 2048
      (λ tier idx n. refl) (omega arith, (omega arith, tt))
      (omega arith, (omega arith, omega arith), tt, tt) pass-ends.0 consumed-went_on
