-- ===== src/Multipass/Kept.antt =====
-- A recovery (src/multipass.rs) that is stopped, wedged or failed does nothing to the mapfile beside
-- what its passes did.
use freemkv_engine.Base.{
  ℕ, zero, suc, ◌+◌, ◌≡◌, refl, Bool, true, false, not, ◌&&◌, ◌||◌, Option, none, some, arith, ltb,
  if◌then◌else◌, min, max, if_cases,
}
use freemkv_engine.LibError.{LibError}
use freemkv_engine.Mapfile.State.{Mapfile, Error, Result, ok, err}
use freemkv_engine.Mapfile.Persist.{Disk}
use freemkv_engine.Copy.{CopyResult}
use freemkv_engine.Multipass.{
  LostTime, Passes, Meets, MultipassOpts, PassResult, passed, failed, PatchOutcome, Progress,
  PassesEnd, over, wedged_out, pass_failed, Recovery, recovered, recovery_failed, after_sweep,
  sweep_attempts, scope_bad_of, after_pass, after_patch, patch_passes, then_patches, run_passes,
  plan_passes, read_back, finish, recover, recover_passes, single_pass, prior_error, states_mode,
  takes_passes, interrupted, verdict_on, judged, pass_exit, is_cancelled, is_wedged, is_no_progress,
  patch_pass_decision_measured, pre_pass_converged,
}

-- An end before the verdict.
abbrev pub is_early : {Ms : Type 0} → Recovery Ms → Bool
is_early (recovered r d) = r.halted || r.wedged
is_early (recovery_failed e d) = true

abbrev pub disk_of : {Ms : Type 0} → Recovery Ms → Disk
disk_of (recovered r d) = d
disk_of (recovery_failed e d) = d

module _ {Ms : Type 0} (t : LostTime Ms) (run : Passes) (meets : Meets Ms) (opts : MultipassOpts)
    (Kept : Disk → Type 0)
    (sweeps : (attempt : ℕ) (resume : Bool) (d : Disk)
      → Kept d
      → Kept (run.sweep attempt resume d).1)
    (patches : (pass : ℕ) (d : Disk) → Kept d → Kept (run.patch pass d).1)
    (singles : (d : Disk) → Kept d → Kept (run.single d).1) where
  abbrev Holds : PassesEnd → Type 0
  Holds (over p) = Kept p.disk
  Holds (wedged_out p) = Kept p.disk
  Holds (pass_failed e d) = Kept d

  after_sweep-Holds :
      (attempt : ℕ) (again : LibError → Disk → PassesEnd) (r : PassResult CopyResult × Disk)
      → Kept r.1
      → ((e : LibError) (d : Disk) → Kept d → Holds (again e d))
      → Holds (after_sweep t run meets opts attempt again r)
  after_sweep-Holds attempt again (passed sr, d) k h = k
  after_sweep-Holds attempt again (failed e, d) k h =
      if_cases Holds
        (e.is_scsi_transport_failure
          && not (meets.cancelled_sweep attempt)
          && meets.recover_transport attempt e)
        (again e d) (pass_failed e d) (h e d k) k

  sweep_attempts-Holds :
      (left attempt : ℕ) (resume : Bool) (last : Option LibError) (d : Disk)
      → Kept d
      → Holds (sweep_attempts t run meets opts left attempt resume last d)
  unfolding sweep_attempts
  sweep_attempts-Holds zero attempt resume last d k = k
  sweep_attempts-Holds (suc left) attempt resume last d k =
      after_sweep-Holds (attempt + 1)
        (λ e d'. sweep_attempts t run meets opts left (attempt + 1) resume (some e) d')
        (run.sweep (attempt + 1) (resume || ltb 1 (attempt + 1)) d)
        (sweeps (attempt + 1) (resume || ltb 1 (attempt + 1)) d k)
        (λ e d' k'. sweep_attempts-Holds left (attempt + 1) resume (some e) d' k')

  after_patch-Holds :
      (pass : ℕ) (scope_bad : Option ℕ) (p : Progress) (again : Progress → PassesEnd)
      (r : PassResult PatchOutcome × Disk)
      → Kept r.1
      → ((p' : Progress) → Kept p'.disk → Holds (again p'))
      → Holds (after_patch t run meets opts pass scope_bad p again r)
  after_patch-Holds pass scope_bad p again (passed pr, d) k h =
      let p' = after_pass t run meets opts pr d p in
      let exit = pass_exit pr.halted pr.wedged_exit in
      if_cases Holds (is_cancelled exit || meets.cancelled_after pass)
        (over (record p' { halted = true })) _ k
        (if_cases Holds (is_wedged exit && opts.stop_after_wedge) (wedged_out p') _ k (
          if_cases Holds
            (is_no_progress
              (patch_pass_decision_measured scope_bad (some pr.bytes_recovered_this_pass)))
            (over p') (again p') k (h p' k)))
  after_patch-Holds pass scope_bad p again (failed e, d) k h =
      if_cases Holds opts.finish_on_patch_failure (over (record p { disk = d })) (pass_failed e d) k
        k

  patch_passes-Holds :
      (left pass : ℕ) (p : Progress)
      → Kept p.disk
      → Holds (patch_passes t run meets opts left pass p)
  unfolding patch_passes
  patch_passes-Holds zero pass p k = k
  patch_passes-Holds (suc left) pass p k =
      let scope_bad = scope_bad_of t run meets opts (meets.load p.disk) in
      let again = patch_passes t run meets opts left (pass + 1) in
      if_cases Holds (meets.cancelled_before pass) (over (record p { halted = true })) _ k (
        if_cases Holds (pre_pass_converged scope_bad p.last_good) (over p)
          (after_patch t run meets opts pass scope_bad p again (run.patch pass p.disk)) k
          (after_patch-Holds pass scope_bad p again (run.patch pass p.disk) (patches pass p.disk k)
            (λ p' k'. patch_passes-Holds left (pass + 1) p' k')))

  then_patches-Holds :
      (left : ℕ) (e : PassesEnd) → Holds e → Holds (then_patches t run meets opts left e)
  then_patches-Holds left (over p) k =
      if_cases Holds p.halted (over p) (patch_passes t run meets opts left 2 p) k
        (patch_passes-Holds left 2 p k)
  then_patches-Holds left (wedged_out p) k = k
  then_patches-Holds left (pass_failed e d) k = k

  read_back_late :
      (p : Progress) (m : Result Mapfile) → is_early (read_back t run meets opts p m) ≡ false
  unfolding verdict_on judged
  read_back_late p (ok m) = refl
  read_back_late p (err e) = refl

  finish-Kept :
      (e : PassesEnd)
      → Holds e
      → is_early (finish t run meets opts e) ≡ true
      → Kept (disk_of (finish t run meets opts e))
  finish-Kept (over p) k =
      if_cases (λ (r : Recovery Ms). is_early r ≡ true → Kept (disk_of r))
        (p.halted || meets.cancelled_at_end)
        (recovered (interrupted t run meets opts false p) p.disk)
        (read_back t run meets opts p (meets.load p.disk)) (λ _. k)
        (λ h. ground (arith, read_back_late p (meets.load p.disk)))
  finish-Kept (wedged_out p) k = λ h. k
  finish-Kept (pass_failed e d) k = λ h. k

  recover_passes-Kept :
      (mapped : Bool) (d : Disk)
      → Kept d
      → is_early (recover_passes t run meets opts mapped d) ≡ true
      → Kept (disk_of (recover_passes t run meets opts mapped d))
  unfolding recover_passes run_passes
  recover_passes-Kept mapped d k =
      let resume : Bool = elim opts.resume_sweep [ none ↦ mapped | some b ↦ b ] in
      let attempts : ℕ = max opts.max_sweep_attempts 1 in
      finish-Kept (run_passes t run meets opts resume d) (
        then_patches-Holds (plan_passes (min opts.max_passes 255)).patch_passes
          (sweep_attempts t run meets opts attempts 0 resume none d)
          (sweep_attempts-Holds attempts 0 resume none d k))

  abbrev outcome : Disk → Recovery Ms
  outcome d =
      if takes_passes t run meets opts
      then recover_passes t run meets opts (states_mode t run meets opts (meets.load d)) d
      else single_pass t run meets opts (run.single d)

  single_pass-Kept :
      (r : PassResult CopyResult × Disk)
      → Kept r.1
      → Kept (disk_of (single_pass t run meets opts r))
  unfolding single_pass
  single_pass-Kept (passed cr, d) k = k
  single_pass-Kept (failed e, d) k = k

  -- What every sweep, every patch pass and every single pass keep true of the disk of the mapfile, a
  -- recovery keeps as well where it is stopped, ends on a wedge or fails: the promotion of what is
  -- still to be tried, which declares it lost, is not run on these ends.
  pub recover-Kept :
      (d : Disk)
      → Kept d
      → is_early (recover t run meets opts d) ≡ true
      → Kept (disk_of (recover t run meets opts d))
  unfolding recover
  recover-Kept d k =
      elim (prior_error t run meets opts (meets.load d))
        as (λ (prior : Option Error).
          is_early (elim prior as (λ _. Recovery Ms) [
            | some e ↦ recovery_failed (meets.from_io e) d
            | none ↦ outcome d
          ])
            ≡ true
          → Kept (
              disk_of (elim prior as (λ _. Recovery Ms) [
                | some e ↦ recovery_failed (meets.from_io e) d
                | none ↦ outcome d
              ]))) [
                | some e ↦ λ h. k
                | none ↦
                    if_cases (λ (r : Recovery Ms). is_early r ≡ true → Kept (disk_of r))
                      (takes_passes t run meets opts)
                      (recover_passes t run meets opts (states_mode t run meets opts (meets.load d))
                        d)
                      (single_pass t run meets opts (run.single d))
                      (recover_passes-Kept (states_mode t run meets opts (meets.load d)) d k)
                      (λ _. single_pass-Kept (run.single d) (singles d k))
              ]
