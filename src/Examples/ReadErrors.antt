-- ===== src/Examples/ReadErrors.antt =====
-- Runs of the read-error policy (src/recovery/read_error.rs).
use freemkv_engine.Base.{
  none, true, false, ◌++◌, ℕ, ◌+◌, ◌≤◌, ◌≡◌, refl, not, ◌&&◌, ◌||◌, some, List, [], ◌∷◌, arith, leb,
  if◌then◌else◌, length,
}
use freemkv_engine.LibError.{io_error, LibError, scsi_error, is_key_stop}
use freemkv_engine.ReadError.{
  ReadCtx, Scsi, for_sweep, on_success, handle_read_error, is_wedge, jump_ahead, retry, classify,
  damage_response, on_wedge, on_damage, jump_or_skip, jump_triggered,
}
use freemkv_engine.ReadError.Cases.{bridge_retry, not_ready_retry}
use freemkv_engine.ReadError.Invariant.{
  IsValid, for_sweep-IsValid, on_success-IsValid, handle_read_error-IsValid,
}
use freemkv_engine.ReadError.Actions.{
  is_abort, is_jump, IsBounded, handle_read_error-abort, handle_read_error-IsBounded,
}
use freemkv_engine.ReadError.Counters.{handle_read_error_counts}
use freemkv_engine.ReadError.Retries.{
  retries_left, run_errors, all_retried, all_retried-le, IsPlainWedge, wedge_run_aborts,
}

-- The sense keys of SPC, with the key itself as its family.
abbrev spc : Scsi ℕ
spc = record {
  not_ready = 2;
  hardware_error = 4;
  illegal_request = 5;
  recovered_error = 1;
  from_sense_key = λ key. key;
  other_family = 0;
}

abbrev sensed : ℕ → LibError
sensed key = record {
  variant = scsi_error;
  scsi_sense = some (record { sense_key = key; asc = 0; ascq = 0 });
  is_scsi_transport_failure = false;
  is_bridge_degradation = false;
  is_unit_attention = false;
}

abbrev sweep : ReadCtx ℕ
sweep = for_sweep 32

abbrev wedged : LibError
wedged = sensed 4

-- A first hardware error jumps far ahead; a drive that is not ready is asked again.
first_wedge : (handle_read_error spc 7 wedged sweep).0 ≡ jump_ahead 524288 30
unfolding handle_read_error for_sweep is_key_stop classify damage_response on_wedge
first_wedge = refl

first_not_ready : (handle_read_error spc 7 (sensed 2) sweep).0 ≡ retry 3
unfolding handle_read_error for_sweep is_key_stop classify
first_not_ready = refl

first_medium_error : (handle_read_error spc 7 (sensed 3) sweep).0 ≡ jump_ahead 32768 32
unfolding handle_read_error for_sweep is_key_stop classify damage_response on_damage jump_or_skip
    jump_triggered
first_medium_error = refl

handle_read_error-abort_example : is_abort (handle_read_error spc 7 wedged sweep).0 ≡ (
    is_key_stop scsi_error
    || false
    || false
    || not (bridge_retry spc wedged sweep || not_ready_retry spc wedged sweep)
      && is_wedge spc wedged
      && leb 16 (sweep.wedge_count + 1))
handle_read_error-abort_example = handle_read_error-abort spc 7 wedged sweep

handle_read_error-IsBounded_example : IsBounded 32 (handle_read_error spc 7 (sensed 3) sweep).0
unfolding for_sweep
handle_read_error-IsBounded_example =
    handle_read_error-IsBounded spc 7 (sensed 3) sweep (for_sweep-IsValid 32) (omega arith)

handle_read_error-IsValid_example : IsValid (handle_read_error spc 7 (sensed 3) sweep).1
handle_read_error-IsValid_example =
    handle_read_error-IsValid spc 7 (sensed 3) sweep (for_sweep-IsValid 32)

on_success-IsValid_example : IsValid (on_success 7 sweep)
on_success-IsValid_example = on_success-IsValid 7 sweep (for_sweep-IsValid 32)

handle_read_error_counts_example :
    let (action, c') = handle_read_error spc 7 (sensed 3) sweep in
    (c'.total_errors ≡ sweep.total_errors + 1)
    × (c'.total_reads_ok ≡ sweep.total_reads_ok)
    × (c'.jumps_taken ≡ sweep.jumps_taken + (if is_jump action then 1 else 0))
    × (c'.zones_entered
        ≡ sweep.zones_entered + (if c'.in_damage_zone && not sweep.in_damage_zone then 1 else 0))
    × ((sweep.in_damage_zone || c'.in_damage_zone) ≡ c'.in_damage_zone)
handle_read_error_counts_example =
    handle_read_error_counts spc 7 (sensed 3) sweep (unfold is_key_stop in refl)

-- Three retries of a drive that is not ready, and one of a degraded bridge: the drive gets no fourth.
abbrev degraded : LibError
degraded = record {
  variant = io_error;
  scsi_sense = none;
  is_scsi_transport_failure = false;
  is_bridge_degradation = true;
  is_unit_attention = false;
}

abbrev mixed_errors : List (ℕ × LibError)
mixed_errors = (7, sensed 2) ∷ (8, sensed 2) ∷ (9, sensed 2) ∷ (10, degraded) ∷ []

mixed_retries :
    (all_retried spc mixed_errors sweep ≡ true)
    × (all_retried spc (mixed_errors ++ (11, sensed 2) ∷ []) sweep ≡ false)
unfolding for_sweep handle_read_error classify all_retried is_key_stop damage_response on_damage
    jump_or_skip jump_triggered
mixed_retries = (refl, refl)

all_retried-le_example : length mixed_errors ≤ retries_left sweep
all_retried-le_example = all_retried-le spc mixed_errors sweep mixed_retries.0

wedged-IsPlainWedge : IsPlainWedge spc wedged
wedged-IsPlainWedge = record {
  wedge = refl;
  no_stop = unfold is_key_stop in refl;
  no_transport = refl;
  no_attention = refl;
  no_bridge = refl;
  ready = refl;
}

abbrev two_wedges : List (ℕ × LibError)
two_wedges = (7, wedged) ∷ (8, wedged) ∷ []

wedge_run_aborts_example :
    is_abort (handle_read_error spc 9 wedged (run_errors spc two_wedges sweep)).0
    ≡ leb 15 (length two_wedges)
wedge_run_aborts_example =
    wedge_run_aborts spc two_wedges sweep 9 wedged (unfold for_sweep in refl)
      (wedged-IsPlainWedge, (wedged-IsPlainWedge, tt)) wedged-IsPlainWedge
