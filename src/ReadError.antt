-- ===== src/ReadError.antt =====
-- The read-error policy of Pass 1 (src/recovery/read_error.rs): `ReadCtx`, `on_success` and
-- `handle_read_error`. Time is in milliseconds; counters do not wrap.
mod State
pub mod Cases
pub mod Invariant
pub mod Retries
pub mod Actions
pub mod Counters
pub use State.*
use freemkv_engine.Base.{
  ℕ, ◌+◌, ◌-◌, ◌*◌, ◌/◌, Bool, true, false, not, ◌&&◌, ◌||◌, Option, none, some, List, [], ◌∷◌,
  ◌++◌, min, ltb, leb, ◌==◌, if◌then◌else◌, saturating_mul, length, drop,
}
use freemkv_engine.LibError.{LibError, Sense, is_key_stop}

-- `damage_window.push`, with the eviction of the oldest entry.
unfoldable pub push_outcome : ℕ → Bool → List Bool → List Bool
push_outcome cap outcome window =
    let pushed = window ++ outcome ∷ [] in if ltb cap (length pushed) then drop 1 pushed else pushed

-- `damage_window.iter().filter(|&&b| !b).count()`.
unfoldable pub count_bad : List Bool → ℕ
count_bad [] = 0
count_bad (b ∷ window) = (if b then 0 else 1) + count_bad window

-- The percentage of failures in the window.
abbrev pub bad_pct : List Bool → ℕ
bad_pct window = if length window == 0 then 0 else count_bad window * 100 / length window

module _ {Family : Type 0} where
  -- `ReadCtx::for_sweep`.
  unfoldable pub for_sweep : ℕ → ReadCtx Family
  for_sweep batch = record {
    batch = batch;
    consecutive_good = 0;
    consecutive_failures = 0;
    consecutive_outer_failures = 0;
    damage_window = [];
    damage_window_max = 16;
    damage_threshold_pct = 12;
    fast_jump_threshold = 1;
    jump_multiplier = 1;
    not_ready_retries = 0;
    bridge_degradation_count = 0;
    patch_pass = false;
    wedge_count = 0;
    last_success_at = none;
    last_error_at = none;
    last_error_family = none;
    total_errors = 0;
    total_reads_ok = 0;
    zones_entered = 0;
    jumps_taken = 0;
    in_damage_zone = false;
    long_pause_escalations = 0;
    marginal_recovered = 0;
  }

  -- The end of a damage zone in `on_success`.
  abbrev pub leave_zone : ReadCtx Family → ReadCtx Family
  leave_zone c =
      if c.in_damage_zone && leb c.damage_window_max c.consecutive_good
      then record c { in_damage_zone = false; last_error_family = none; jump_multiplier = 1 }
      else c

  -- `ReadCtx::on_success`.
  unfoldable pub on_success : ℕ → ReadCtx Family → ReadCtx Family
  on_success now c = leave_zone (record c {
    consecutive_good = c.consecutive_good + 1;
    consecutive_failures = 0;
    not_ready_retries = 0;
    wedge_count = 0;
    bridge_degradation_count = 0;
    consecutive_outer_failures = 0;
    damage_window = push_outcome c.damage_window_max true c.damage_window;
    total_reads_ok = c.total_reads_ok + 1;
    last_success_at = some now;
  })

  -- The bookkeeping at the top of `handle_read_error`.
  abbrev pub note_error : ℕ → Family → ReadCtx Family → ReadCtx Family
  note_error now family c = record c {
    consecutive_failures = c.consecutive_failures + 1;
    consecutive_good = 0;
    consecutive_outer_failures = c.consecutive_outer_failures + 1;
    total_errors = c.total_errors + 1;
    last_error_at = some now;
    last_error_family = some family;
  }

  -- Zone-entry tracking.
  abbrev pub enter_zone : ReadCtx Family → ReadCtx Family
  enter_zone c = record c { in_damage_zone = true; zones_entered = c.zones_entered + 1 }

  -- 4. The wedge family.
  unfoldable pub on_wedge : ReadCtx Family → ReadAction × ReadCtx Family
  on_wedge c =
      if leb wedge_abort_threshold (c.wedge_count + 1)
      then (abort_pass, record c { wedge_count = c.wedge_count + 1 })
      else (
        jump_ahead (if c.patch_pass then wedge_pass_n_skip_sectors else wedge_jump_sectors)
            wedge_pause_secs,
        record c { wedge_count = c.wedge_count + 1; jumps_taken = c.jumps_taken + 1 },
      )

  -- 4b. RECOVERED ERROR.
  unfoldable pub on_recovered : ReadCtx Family → ReadAction × ReadCtx Family
  on_recovered c =
      (skip_block fail_pause_secs, record c { marginal_recovered = c.marginal_recovered + 1 })

  -- The choice of the pause.
  abbrev pub choose_pause : Bool → ReadCtx Family → ℕ × ReadCtx Family
  choose_pause zone_entry c =
      if zone_entry && not c.patch_pass
      then (zone_entry_cooldown_secs, c)
      else if leb consecutive_fail_long_pause_threshold c.consecutive_failures
      then (
        consecutive_fail_long_pause_secs,
        record c { long_pause_escalations = c.long_pause_escalations + 1 },
      )
      else (fail_pause_secs, c)

  -- `fast_trigger || window_trigger`.
  unfoldable pub jump_triggered : ReadCtx Family → Bool
  unfolding count_bad
  jump_triggered c =
      leb c.fast_jump_threshold c.consecutive_outer_failures
      || (leb c.damage_window_max (length c.damage_window)
          && leb c.damage_threshold_pct (bad_pct c.damage_window))

  -- 6. and 7. The damage-jump, or the skip in place.
  unfoldable pub jump_or_skip : ℕ → ReadCtx Family → ReadAction × ReadCtx Family
  jump_or_skip pause c =
      if jump_triggered c
      then (
        jump_ahead
            (saturating_mul (saturating_mul jump_base_sectors c.batch)
              (min c.jump_multiplier max_jump_multiplier))
            (pause + post_jump_extra_pause_secs),
        record c {
          jump_multiplier = min (saturating_mul c.jump_multiplier 2) max_jump_multiplier;
          consecutive_outer_failures = 0;
          jumps_taken = c.jumps_taken + 1;
        },
      )
      else (skip_block pause, c)

  -- 5. to 7. A read failure, entered in the damage window.
  unfoldable pub on_damage : Bool → ReadCtx Family → ReadAction × ReadCtx Family
  on_damage zone_entry c =
      let windowed = record c {
        damage_window = push_outcome c.damage_window_max false c.damage_window;
      } in
      let (pause, c') = choose_pause zone_entry windowed in jump_or_skip pause c'

module _ {Family : Type 0} (scsi : Scsi Family) where
  -- `err.scsi_sense().map(|s| s.sense_key).unwrap_or(0)`.
  abbrev pub sense_key_of : LibError → ℕ
  sense_key_of err = elim err.scsi_sense [ none ↦ 0 | some s ↦ s.sense_key ]

  abbrev pub is_recovered : LibError → Bool
  is_recovered err = elim err.scsi_sense [
    | none ↦ false
    | some s ↦ s.sense_key == scsi.recovered_error
  ]

  abbrev pub family_of : LibError → Family
  family_of err = elim err.scsi_sense [
    | none ↦ scsi.other_family
    | some s ↦ scsi.from_sense_key s.sense_key
  ]

  abbrev pub is_wedge : LibError → Bool
  is_wedge err = sense_key_of err == scsi.hardware_error || sense_key_of err == scsi.illegal_request

  -- 4. to 7., once the retry budgets are passed.
  unfoldable pub damage_response : LibError → ReadCtx Family → ReadAction × ReadCtx Family
  damage_response err c =
      let zone_entry = not c.in_damage_zone && not (is_recovered err) in
      let c' = if zone_entry then enter_zone c else c in
      if is_wedge err
      then on_wedge c'
      else if sense_key_of err == scsi.recovered_error
      then on_recovered c'
      else on_damage zone_entry c'

  -- 1. to 3.: the aborts and the bounded retries.
  unfoldable pub classify : LibError → ReadCtx Family → ReadAction × ReadCtx Family
  classify err c =
      if err.is_scsi_transport_failure
      then (abort_pass, c)
      else if err.is_unit_attention
      then (abort_pass, c)
      else if err.is_bridge_degradation
          && ltb c.bridge_degradation_count bridge_degradation_max_retries
      then (
        retry bridge_degradation_pause_secs,
        record c { bridge_degradation_count = c.bridge_degradation_count + 1 },
      )
      else if sense_key_of err == scsi.not_ready && ltb c.not_ready_retries not_ready_max_retries
      then (retry not_ready_pause_secs, record c { not_ready_retries = c.not_ready_retries + 1 })
      else damage_response err (record c { not_ready_retries = 0 })

  -- `handle_read_error`.
  unfoldable pub handle_read_error : ℕ → LibError → ReadCtx Family → ReadAction × ReadCtx Family
  handle_read_error now err c =
      if is_key_stop err.variant
      then (abort_pass, c)
      else classify err (note_error now (family_of err) c)
