-- ===== src/Examples/Sections.antt =====
-- The handlers of a bad section at concrete inputs (src/recovery/section_recover.rs).
use freemkv_engine.Base.{◌≡◌, refl, false, none, [], ◌∷◌, arith}
use freemkv_engine.LibError.{LibError, disc_read}
use freemkv_engine.Section.State.{
  HandlerOutcome, complete, fast_params, deep_params, transferred, Surroundings, Run, Exit,
  returned, claim, verdict,
}
use freemkv_engine.Section.Chain.{bisect, oscillate, recover, run_handlers}
use freemkv_engine.Section.Handlers
use freemkv_engine.Section.Read.{check_past, check_timed, read_span, read_span_as}
use freemkv_engine.SubRanges.{remove}
use freemkv_engine.Section.Exact.Chained.{IsFresh, IsChained, run_handlers-IsChained}

abbrev bad_sector : LibError
bad_sector = record {
  variant = disc_read;
  scsi_sense = none;
  is_scsi_transport_failure = false;
  is_bridge_degradation = false;
  is_unit_attention = false;
}

-- A drive that reads one sector at a time, and fails on larger reads.
abbrev sluggish : Surroundings
sluggish = record {
  read = λ turn. transferred 2048;
  refusal = λ turn. none;
  clock = λ turn. turn;
  halt = λ turn. false;
  underrun = bad_sector;
  is_wedge_family = λ key. false;
  capacity_sectors = 0;
}

abbrev two_sectors : Run
two_sectors = record {
  ctx = record { unproductive = 0; wedge_streak = 0; cur_speed = 65535; fatal = none };
  bad = (4096, 4096) ∷ [];
  turn = 0;
  handed = [];
  spindle = 65535;
}

two_sectors-IsFresh : IsFresh two_sectors
two_sectors-IsFresh = record {
  well = (omega arith, omega arith, refl, refl, tt);
  unhanded = refl;
  top = refl;
  spinning = refl;
}

run_handlers-IsChained_example :
    (o : HandlerOutcome) × ((run_handlers sluggish 60000
        (bisect fast_params ∷ oscillate deep_params ∷ [])
        two_sectors).0
      ≡ returned o)
    × IsChained
        ((4096, 4096) ∷ [])
        o
        (run_handlers sluggish 60000
          (bisect fast_params ∷ oscillate deep_params ∷ [])
          two_sectors).1
run_handlers-IsChained_example =
    run_handlers-IsChained sluggish 60000 (bisect fast_params ∷ oscillate deep_params ∷ [])
      two_sectors two_sectors-IsFresh

abbrev bisected : Exit (Unit {0}) × Run
bisected = run_handlers sluggish 60000 (bisect fast_params ∷ []) two_sectors

-- The middle read, and the sector before it.
bisected_whole :
    (bisected.0 ≡ returned complete) × (bisected.1.handed ≡ (4096, 2048) ∷ (6144, 2048) ∷ [])
unfolding run_handlers recover Handlers.bisect Handlers.bisect_loop Handlers.island check_past
    check_timed read_span read_span_as claim verdict remove
bisected_whole = (refl, refl)
