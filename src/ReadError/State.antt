-- ===== src/ReadError/State.antt =====
-- The state and the constants of src/recovery/read_error.rs.
use freemkv_engine.Base.{ℕ, Bool, Option, List}

-- `ReadCtx`, over the type of `SenseFamily`.
pub record ReadCtx (Family : Type 0) : Type 0 where
  pub batch : ℕ
  pub consecutive_good : ℕ
  pub consecutive_failures : ℕ
  pub consecutive_outer_failures : ℕ
  pub damage_window : List Bool
  pub damage_window_max : ℕ
  pub damage_threshold_pct : ℕ
  pub fast_jump_threshold : ℕ
  pub jump_multiplier : ℕ
  pub not_ready_retries : ℕ
  pub bridge_degradation_count : ℕ
  pub patch_pass : Bool
  pub wedge_count : ℕ
  pub last_success_at : Option ℕ
  pub last_error_at : Option ℕ
  pub last_error_family : Option Family
  pub total_errors : ℕ
  pub total_reads_ok : ℕ
  pub zones_entered : ℕ
  pub jumps_taken : ℕ
  pub in_damage_zone : Bool
  pub long_pause_escalations : ℕ
  pub marginal_recovered : ℕ

-- `ReadAction`.
pub data ReadAction : Type 0 where
  retry : ℕ → ReadAction
  skip_block : ℕ → ReadAction
  jump_ahead : ℕ → ℕ → ReadAction
  abort_pass : ReadAction

abbrev pub fail_pause_secs : ℕ
fail_pause_secs = 5

abbrev pub zone_entry_cooldown_secs : ℕ
zone_entry_cooldown_secs = 30

abbrev pub consecutive_fail_long_pause_secs : ℕ
consecutive_fail_long_pause_secs = 5

abbrev pub consecutive_fail_long_pause_threshold : ℕ
consecutive_fail_long_pause_threshold = 10

abbrev pub post_jump_extra_pause_secs : ℕ
post_jump_extra_pause_secs = 2

abbrev pub not_ready_pause_secs : ℕ
not_ready_pause_secs = 3

abbrev pub not_ready_max_retries : ℕ
not_ready_max_retries = 3

abbrev pub bridge_degradation_pause_secs : ℕ
bridge_degradation_pause_secs = 15

abbrev pub bridge_degradation_max_retries : ℕ
bridge_degradation_max_retries = 5

abbrev pub jump_base_sectors : ℕ
jump_base_sectors = 1024

abbrev pub max_jump_multiplier : ℕ
max_jump_multiplier = 64

abbrev pub wedge_jump_sectors : ℕ
wedge_jump_sectors = 524288

abbrev pub wedge_pause_secs : ℕ
wedge_pause_secs = 30

abbrev pub wedge_abort_threshold : ℕ
wedge_abort_threshold = 16

abbrev pub wedge_pass_n_skip_sectors : ℕ
wedge_pass_n_skip_sectors = 64

-- `libfreemkv::scsi`: its sense keys, and `SenseFamily::from_sense_key` with its `Other`.
pub record Scsi (Family : Type 0) : Type 0 where
  pub not_ready : ℕ
  pub hardware_error : ℕ
  pub illegal_request : ℕ
  pub recovered_error : ℕ
  pub from_sense_key : ℕ → Family
  pub other_family : Family
