-- ===== src/Multipass.antt =====
-- The recovery over several passes: `recover` of src/multipass.rs.
mod State
pub mod Ends
pub mod Kept
pub mod Counted
unfoldable pub use State.*
use freemkv_engine.Base.{
  ℕ, zero, suc, ◌+◌, Bool, true, false, not, ◌&&◌, ◌||◌, Option, none, some, List, [], ◌∷◌, ltb,
  ◌==◌, if◌then◌else◌, min, max,
}
use freemkv_engine.Ranges.{ByteRange}
use freemkv_engine.LibError.{LibError}
use freemkv_engine.Mapfile.Status.{unreadable, bad_sector_statuses}
use freemkv_engine.Mapfile.Entry.{MapStats}
use freemkv_engine.Mapfile.State.{Mapfile, Error, not_found, Result, ok, err, ranges_with}
use freemkv_engine.Mapfile.Persist.{Disk, World, promote, flush}
use freemkv_engine.Copy.{CopyResult, map_stats}

-- The locals of the loop over the passes, with the disk of the mapfile.
pub record Progress : Type 0 where
  pub disk : Disk
  pub passes : ℕ
  pub last_good : ℕ
  pub last_unreadable : ℕ
  pub last_pending : ℕ
  pub halted : Bool

-- How the passes end: they are over, a wedge ends the recovery, or a pass fails it.
pub data PassesEnd : Type 0 where
  over wedged_out : Progress → PassesEnd
  pass_failed : LibError → Disk → PassesEnd

pub data Recovery (Ms : Type 0) : Type 0 where
  recovered : MultipassResult Ms → Disk → Recovery Ms
  recovery_failed : LibError → Disk → Recovery Ms

abbrev pub last_error : Option LibError → LibError → LibError
last_error none e = e
last_error (some last) e = last

module _ {Ms : Type 0} (t : LostTime Ms) (run : Passes) (meets : Meets Ms)
    (opts : MultipassOpts) where
  -- The attempts of the sweep that are left, the last error, and the disk.
  abbrev pub after_sweep :
      ℕ → (LibError → Disk → PassesEnd) → PassResult CopyResult × Disk → PassesEnd
  after_sweep attempt again (passed sr, d) = over (record {
    disk = d;
    passes = 1;
    last_good = sr.bytes_good;
    last_unreadable = sr.bytes_unreadable;
    last_pending = sr.bytes_pending;
    halted = sr.halted;
  })
  after_sweep attempt again (failed e, d) =
      if e.is_scsi_transport_failure
        && not (meets.cancelled_sweep attempt)
        && meets.recover_transport attempt e
      then again e d
      else pass_failed e d

  unfoldable pub sweep_attempts : ℕ → ℕ → Bool → Option LibError → Disk → PassesEnd
  sweep_attempts zero attempt resume last d =
      pass_failed (last_error last meets.source_terminated) d
  sweep_attempts (suc left) attempt resume last d =
      after_sweep (attempt + 1) (λ e d'. sweep_attempts left (attempt + 1) resume (some e) d')
        (run.sweep (attempt + 1) (resume || ltb 1 (attempt + 1)) d)

  -- The bad bytes of the titles, by the mapfile on the disk.
  abbrev pub scope_bad_of : Result Mapfile → Option ℕ
  scope_bad_of (ok m) = meets.titles_scope_bad (ranges_with m.entries bad_sector_statuses)
  scope_bad_of (err e) = none

  abbrev pub after_pass : PatchOutcome → Disk → Progress → Progress
  after_pass pr d p = record {
    disk = d;
    passes = p.passes + 1;
    last_good = pr.bytes_good;
    last_unreadable = pr.bytes_unreadable;
    last_pending = pr.bytes_pending;
    halted = p.halted;
  }

  abbrev pub after_patch :
      ℕ → Option ℕ → Progress → (Progress → PassesEnd) → PassResult PatchOutcome × Disk → PassesEnd
  after_patch pass scope_bad p again (passed pr, d) =
      let p' = after_pass pr d p in
      let exit = pass_exit pr.halted pr.wedged_exit in
      if is_cancelled exit || meets.cancelled_after pass
      then over (record p' { halted = true })
      else if is_wedged exit && opts.stop_after_wedge
      then wedged_out p'
      else if is_no_progress
          (patch_pass_decision_measured scope_bad (some pr.bytes_recovered_this_pass))
      then over p'
      else again p'
  after_patch pass scope_bad p again (failed e, d) =
      if opts.finish_on_patch_failure then over (record p { disk = d }) else pass_failed e d

  -- The patch passes that are left, from one on.
  unfoldable pub patch_passes : ℕ → ℕ → Progress → PassesEnd
  patch_passes zero pass p = over p
  patch_passes (suc left) pass p =
      let scope_bad = scope_bad_of (meets.load p.disk) in
      let again = patch_passes left (pass + 1) in
      if meets.cancelled_before pass
      then over (record p { halted = true })
      else if pre_pass_converged scope_bad p.last_good
      then over p
      else after_patch pass scope_bad p again (run.patch pass p.disk)

  abbrev pub then_patches : ℕ → PassesEnd → PassesEnd
  then_patches left (over p) = if p.halted then over p else patch_passes left 2 p
  then_patches left (wedged_out p) = wedged_out p
  then_patches left (pass_failed e d) = pass_failed e d

  unfoldable pub run_passes : Bool → Disk → PassesEnd
  unfolding sweep_attempts patch_passes plan_passes
  run_passes resume d =
      then_patches (plan_passes (min opts.max_passes 255)).patch_passes
        (sweep_attempts (max opts.max_sweep_attempts 1) 0 resume none d)

  -- A result before the verdict: a Stop or a wedge.
  unfoldable pub interrupted : Bool → Progress → MultipassResult Ms
  unfolding interrupted_severity
  interrupted by_wedge p = record {
    unreadable_bytes = p.last_unreadable;
    pending_bytes = p.last_pending;
    good_bytes = p.last_good;
    main_lost_ms = interrupted_lost_ms t p.last_unreadable p.last_pending;
    lost_bytes = p.last_unreadable;
    severity = interrupted_severity t p.last_unreadable p.last_pending;
    passes = p.passes;
    aborted_for_loss = false;
    halted = not by_wedge;
    wedged = by_wedge;
    complete = false;
  }

  -- `loss_verdict`.
  unfoldable pub loss_verdict : List ByteRange → LossVerdict Ms
  unfolding loss_aborts
  loss_verdict bad_ranges =
      let lost_bytes = meets.titles_lost_bytes bad_ranges in
      let lost_ms = meets.titles_lost_ms true bad_ranges in
      record {
        lost_bytes = lost_bytes;
        lost_ms = lost_ms;
        aborts =
            loss_aborts t lost_bytes lost_ms
              (effective_abort_secs opts.is_iso_output opts.abort_on_lost_secs);
      }

  -- The end of a recovery that has its verdict.
  unfoldable pub judged : LossVerdict Ms → ℕ → ℕ → ℕ → ℕ → ℕ → MultipassResult Ms
  unfolding classify_damage
  judged v good lost pending bad_sectors passes = record {
    unreadable_bytes = lost;
    pending_bytes = pending;
    good_bytes = good;
    main_lost_ms = v.lost_ms;
    lost_bytes = v.lost_bytes;
    severity =
        if t.is_nan v.lost_ms && not v.aborts
        then classify_damage t bad_sectors t.zero_ms
        else classify_damage t bad_sectors v.lost_ms;
    passes = passes;
    aborted_for_loss = v.aborts;
    halted = false;
    wedged = false;
    complete = recovery_is_complete v.aborts lost pending;
  }

  abbrev pub is_done : Result (Unit {0}) → Bool
  is_done (ok _) = true
  is_done (err e) = false

  -- The promotion with its flush: whether both went through, and the world after.
  unfoldable pub promoted : World → Bool × World
  unfolding promote flush
  promoted w =
      let one = promote meets.on_promote promoted_from unreadable w in
      let two = flush meets.on_flush one.1 in (is_done one.0 && is_done two.0, two.1)

  unfoldable pub verdict_on : Progress → World → Recovery Ms
  unfolding promoted loss_verdict judged
  verdict_on p w =
      let (intact, w') = promoted w in
      let bad_ranges = ranges_with w'.map.entries (unreadable ∷ []) in
      let s = map_stats w'.map in
      let v = loss_verdict bad_ranges in
      let v' = record v { lost_ms = meets.titles_lost_ms false bad_ranges; aborts = true } in
      recovered
        (judged (if intact then v else v') s.bytes_good s.bytes_unreadable s.bytes_pending
          (bad_sector_count s.bytes_unreadable s.bytes_retryable) p.passes)
        (flush meets.on_drop w').1.disk

  -- The mapfile, read back for the verdict.
  abbrev pub read_back : Progress → Result Mapfile → Recovery Ms
  read_back p (ok m) = verdict_on p (record { map = m; disk = p.disk })
  read_back p (err e) =
      recovered
        (judged (record { lost_bytes = p.last_unreadable; lost_ms = t.nan; aborts = true })
          p.last_good p.last_unreadable p.last_pending
          (bad_sector_count p.last_unreadable p.last_pending) p.passes)
        p.disk

  abbrev pub finish : PassesEnd → Recovery Ms
  finish (over p) =
      if p.halted || meets.cancelled_at_end
      then recovered (interrupted false p) p.disk
      else read_back p (meets.load p.disk)
  finish (wedged_out p) = recovered (interrupted true p) p.disk
  finish (pass_failed e d) = recovery_failed e d

  -- `recover` past its single-pass branch; `mapped` is whether the mapfile that is there states
  -- its mode.
  unfoldable pub recover_passes : Bool → Disk → Recovery Ms
  unfolding run_passes
  recover_passes mapped d =
      finish (run_passes (elim opts.resume_sweep [ none ↦ mapped | some b ↦ b ]) d)

  -- `single_pass`.
  unfoldable pub single_pass : PassResult CopyResult × Disk → Recovery Ms
  unfolding classify_damage interrupted_severity
  single_pass (passed cr, d) =
      let bad_sectors = bad_sector_count cr.bytes_unreadable cr.bytes_pending in
      recovered
        (record {
          unreadable_bytes = cr.bytes_unreadable;
          pending_bytes = cr.bytes_pending;
          good_bytes = cr.bytes_good;
          main_lost_ms = if bad_sectors == 0 then t.zero_ms else t.nan;
          lost_bytes = cr.bytes_unreadable;
          severity =
              if cr.halted
              then interrupted_severity t cr.bytes_unreadable cr.bytes_pending
              else classify_damage t bad_sectors t.zero_ms;
          passes = 1;
          aborted_for_loss = false;
          halted = cr.halted;
          wedged = false;
          complete = cr.complete;
        })
        d
  single_pass (failed e, d) = recovery_failed e d

  -- The mapfile that is there: the error that fails the run, and whether it states its mode.
  abbrev pub is_not_found : Error → Bool
  is_not_found not_found = true
  is_not_found _ = false

  abbrev pub prior_error : Result Mapfile → Option Error
  prior_error (ok m) = none
  prior_error (err e) = if is_not_found e || meets.is_invalid_data e then none else some e

  abbrev pub states_mode : Result Mapfile → Bool
  states_mode (ok m) = elim m.raw [ none ↦ false | some raw ↦ true ]
  states_mode (err e) = false

  abbrev pub takes_passes : Bool
  takes_passes = (plan_passes (min opts.max_passes 255)).multipass

  -- `recover`.
  unfoldable pub recover : Disk → Recovery Ms
  unfolding recover_passes single_pass
  recover d = elim (prior_error (meets.load d)) [
    | some e ↦ recovery_failed (meets.from_io e) d
    | none ↦
        (if takes_passes
          then recover_passes (states_mode (meets.load d)) d
          else single_pass (run.single d))
  ]
