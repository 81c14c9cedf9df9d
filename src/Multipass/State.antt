-- ===== src/Multipass/State.antt =====
-- The decisions of src/multipass.rs, with `DamageSeverity` of src/outcome.rs, and the records of a
-- recovery.
use freemkv_engine.Base.{
  ℕ, ◌+◌, ◌/◌, Bool, true, false, not, ◌&&◌, ◌||◌, Option, none, some, List, [], ◌∷◌, ltb, leb,
  ◌==◌, if◌then◌else◌, min, saturating_add,
}
use freemkv_engine.Ranges.{ByteRange}
use freemkv_engine.LibError.{LibError}
use freemkv_engine.Mapfile.Status.{SectorStatus, non_trimmed, non_scraped}
use freemkv_engine.Mapfile.State.{Mapfile, Error, Result}
use freemkv_engine.Mapfile.Persist.{Disk, Env}
use freemkv_engine.Copy.{CopyResult}

-- `PassPlan`.
pub record PassPlan : Type 0 where
  pub multipass : Bool
  pub sweep_passes : ℕ
  pub patch_passes : ℕ
  pub total_passes : ℕ

-- `plan_passes`.
unfoldable pub plan_passes : ℕ → PassPlan
plan_passes max_retries =
    let retries = min max_retries 253 in
    if ltb 0 retries
    then record {
      multipass = true;
      sweep_passes = 1;
      patch_passes = retries;
      total_passes = min (retries + 2) 255;
    }
    else record { multipass = false; sweep_passes = 0; patch_passes = 0; total_passes = 0 }

-- `PatchDecision`, with `scope_converged` and `patch_made_progress`.
pub data PatchDecision : Type 0 where
  converged no_progress continue : PatchDecision

abbrev pub recovered_nothing : Option ℕ → Bool
recovered_nothing none = false
recovered_nothing (some r) = r == 0

unfoldable pub patch_pass_decision : ℕ → Option ℕ → PatchDecision
patch_pass_decision mux_scope_bad recovered =
    if mux_scope_bad == 0
    then converged
    else if recovered_nothing recovered
    then no_progress
    else continue

unfoldable pub patch_pass_decision_measured : Option ℕ → Option ℕ → PatchDecision
unfolding patch_pass_decision
patch_pass_decision_measured (some bad) recovered = patch_pass_decision bad recovered
patch_pass_decision_measured none recovered =
    if recovered_nothing recovered then no_progress else continue

abbrev pub is_converged : PatchDecision → Bool
is_converged converged = true
is_converged _ = false

abbrev pub is_no_progress : PatchDecision → Bool
is_no_progress no_progress = true
is_no_progress _ = false

-- `pre_pass_converged`.
unfoldable pub pre_pass_converged : Option ℕ → ℕ → Bool
unfolding patch_pass_decision_measured
pre_pass_converged mux_scope_bad bytes_good =
    ltb 0 bytes_good && is_converged (patch_pass_decision_measured mux_scope_bad none)

-- `PassExit` and `pass_exit`.
pub data PassExit : Type 0 where
  goes_on cancelled wedged : PassExit

unfoldable pub pass_exit : Bool → Bool → PassExit
pass_exit halted wedged_exit = if halted then cancelled else if wedged_exit then wedged else goes_on

abbrev pub is_cancelled : PassExit → Bool
is_cancelled cancelled = true
is_cancelled _ = false

abbrev pub is_wedged : PassExit → Bool
is_wedged wedged = true
is_wedged _ = false

-- The statuses of `end_of_recovery_promotion`.
abbrev pub promoted_from : List SectorStatus
promoted_from = non_trimmed ∷ non_scraped ∷ []

abbrev pub effective_abort_secs : Bool → ℕ → ℕ
effective_abort_secs is_iso_output configured = if is_iso_output then 0 else configured

abbrev pub bad_sector_count : ℕ → ℕ → ℕ
bad_sector_count unreadable_bytes retryable_bytes =
    saturating_add unreadable_bytes retryable_bytes / 2048

-- `recovery_is_complete`.
abbrev pub recovery_is_complete : Bool → ℕ → ℕ → Bool
recovery_is_complete aborted_for_loss unreadable_bytes pending_bytes =
    not aborted_for_loss && unreadable_bytes == 0 && pending_bytes == 0

-- `DamageSeverity`.
pub data DamageSeverity : Type 0 where
  clean cosmetic moderate serious : DamageSeverity

-- What the code asks of a lost time, an `f64`: whether it is not a number, at least 30 seconds, at
-- least one second, and whether it is finite and more than so many seconds.
pub record LostTime (Ms : Type 0) : Type 0 where
  pub zero_ms : Ms
  pub nan : Ms
  pub is_nan : Ms → Bool
  pub is_serious : Ms → Bool
  pub is_moderate : Ms → Bool
  pub exceeds_secs : Ms → ℕ → Bool

-- `LossVerdict`.
pub record LossVerdict (Ms : Type 0) : Type 0 where
  pub lost_bytes : ℕ
  pub lost_ms : Ms
  pub aborts : Bool

-- `MultipassResult`.
pub record MultipassResult (Ms : Type 0) : Type 0 where
  pub unreadable_bytes : ℕ
  pub pending_bytes : ℕ
  pub good_bytes : ℕ
  pub main_lost_ms : Ms
  pub lost_bytes : ℕ
  pub severity : DamageSeverity
  pub passes : ℕ
  pub aborted_for_loss : Bool
  pub halted : Bool
  pub wedged : Bool
  pub complete : Bool

module _ {Ms : Type 0} (t : LostTime Ms) where
  -- `classify_damage`.
  unfoldable pub classify_damage : ℕ → Ms → DamageSeverity
  classify_damage bad_sectors lost_ms =
      if bad_sectors == 0
      then clean
      else if t.is_nan lost_ms
      then serious
      else if leb 500 bad_sectors || t.is_serious lost_ms
      then serious
      else if leb 51 bad_sectors || t.is_moderate lost_ms
      then moderate
      else cosmetic

  -- `loss_aborts`, with `should_abort_for_loss`.
  unfoldable pub loss_aborts : ℕ → Ms → ℕ → Bool
  loss_aborts lost_bytes lost_ms abort_on_lost_secs =
      if abort_on_lost_secs == 0
      then ltb 0 lost_bytes || t.is_nan lost_ms
      else t.exceeds_secs lost_ms abort_on_lost_secs

  -- `interrupted_severity` and `interrupted_lost_ms`.
  abbrev pub not_clean : Bool → DamageSeverity → DamageSeverity
  not_clean pending clean = if pending then cosmetic else clean
  not_clean pending cosmetic = cosmetic
  not_clean pending moderate = moderate
  not_clean pending serious = serious

  unfoldable pub interrupted_severity : ℕ → ℕ → DamageSeverity
  unfolding classify_damage
  interrupted_severity unreadable_bytes pending_bytes =
      not_clean (ltb 0 pending_bytes)
        (classify_damage (bad_sector_count unreadable_bytes 0) t.zero_ms)

  abbrev pub interrupted_lost_ms : ℕ → ℕ → Ms
  interrupted_lost_ms unreadable_bytes pending_bytes =
      if unreadable_bytes == 0 && pending_bytes == 0 then t.zero_ms else t.nan

-- What a patch pass reports, of `PatchOutcome`.
pub record PatchOutcome : Type 0 where
  pub bytes_good : ℕ
  pub bytes_unreadable : ℕ
  pub bytes_pending : ℕ
  pub bytes_recovered_this_pass : ℕ
  pub halted : Bool
  pub wedged_exit : Bool

pub data PassResult (A : Type 0) : Type 0 where
  passed : A → PassResult A
  failed : LibError → PassResult A

-- The passes that a recovery calls, on the disk of the mapfile: a sweep, a patch pass, and the copy or
-- scoped sweep of a single pass.
pub record Passes : Type 0 where
  pub single : Disk → PassResult CopyResult × Disk
  pub sweep : ℕ → Bool → Disk → PassResult CopyResult × Disk
  pub patch : ℕ → Disk → PassResult PatchOutcome × Disk

-- `MultipassOpts`, less the choices that only the passes read.
pub record MultipassOpts : Type 0 where
  pub max_passes : ℕ
  pub abort_on_lost_secs : ℕ
  pub is_iso_output : Bool
  pub max_sweep_attempts : ℕ
  pub resume_sweep : Option Bool
  pub finish_on_patch_failure : Bool
  pub stop_after_wedge : Bool

-- What a recovery meets: the halt token after a failed sweep attempt, before and after a patch pass
-- and at the end; whether the host brings a lost transport back; what the titles that it measures
-- make of damaged ranges; how the mapfile is read, which of its errors are of the kind InvalidData, and
-- what they are as an error of the library; and the writes of the promotion, of the flush
-- and of the drop.
pub record Meets (Ms : Type 0) : Type 0 where
  pub cancelled_sweep : ℕ → Bool
  pub cancelled_before : ℕ → Bool
  pub cancelled_after : ℕ → Bool
  pub cancelled_at_end : Bool
  pub recover_transport : ℕ → LibError → Bool
  pub titles_scope_bad : List ByteRange → Option ℕ
  pub titles_lost_bytes : List ByteRange → ℕ
  pub titles_lost_ms : Bool → List ByteRange → Ms
  pub load : Disk → Result Mapfile
  pub is_invalid_data : Error → Bool
  pub from_io : Error → LibError
  pub on_promote : Env
  pub on_flush : Env
  pub on_drop : Env
  pub source_terminated : LibError
