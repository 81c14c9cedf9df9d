-- ===== src/Examples/Recoveries.antt =====
-- Recoveries over several passes at concrete inputs (src/multipass.rs).
use freemkv_engine.Base.{
  ℕ, ◌≡◌, ◌*◌, refl, Bool, true, false, none, some, List, [], ◌∷◌, ltb, leb, ◌==◌,
}
use freemkv_engine.LibError.{LibError, io_error}
use freemkv_engine.Mapfile.Status.{finished}
use freemkv_engine.Mapfile.Entry.{MapEntry, compute_stats, tally}
use freemkv_engine.Mapfile.State.{Mapfile, ok, err, not_found, io, ranges_with}
use freemkv_engine.Mapfile.Persist.{Disk, Env, promote, promote_loop, any_hit, flush}
use freemkv_engine.Copy.{new_result, map_stats}
use freemkv_engine.Multipass.{
  LostTime, Passes, Meets, MultipassOpts, passed, sweep_attempts, patch_passes, run_passes,
  plan_passes, recover, recover_passes, single_pass, classify_damage, Recovery, recovered,
  recovery_failed, interrupted, verdict_on, judged, promoted, loss_verdict, loss_aborts,
  pre_pass_converged, patch_pass_decision_measured, patch_pass_decision, pass_exit,
}
use freemkv_engine.Multipass.Ends.{is_complete}
use freemkv_engine.Multipass.Kept.{is_early, disk_of, recover-Kept}
use freemkv_engine.Multipass.Counted.{PassesRan, recover-PassesRan}

abbrev lost_time : LostTime ℕ
lost_time = record {
  zero_ms = 0;
  nan = 4000000000;
  is_nan = λ ms. ms == 4000000000;
  is_serious = λ ms. leb 30000 ms;
  is_moderate = λ ms. leb 1000 ms;
  exceeds_secs = λ ms secs. ltb (secs * 1000) ms;
}

-- The sweep leaves bad bytes, and each patch pass recovers some, or ends on a wedge.
abbrev runs : Bool → Passes
runs wedges = record {
  single = λ d. (passed (new_result 4096 4096 0 0 0 false), d);
  sweep = λ attempt resume d. (passed (new_result 4096 2048 0 2048 0 false), d);
  patch = λ pass d. (
    passed (record {
      bytes_good = 4096;
      bytes_unreadable = 0;
      bytes_pending = 0;
      bytes_recovered_this_pass = 2048;
      halted = false;
      wedged_exit = wedges;
    }),
    d,
  );
}

abbrev calm : Env
calm = record {
  now = 500;
  after = 501;
  events = record {
    tmp_error = none;
    partial = none;
    disowned_meanwhile = false;
    disowned_at_rename = false;
    rename_error = none;
    removal_works = true;
  };
}

abbrev whole : Mapfile
whole =
    let entries : List MapEntry = record { pos = 0; size = 4096; status = finished } ∷ [] in
    record {
      entries = entries;
      total_size = 4096;
      version = [];
      stats = compute_stats entries 4096;
      dirty = false;
      last_flushed = 0;
      disc_hash = none;
      vidfp = none;
      legacy_keyfps = [];
      scope = none;
      raw = some false;
      disowned = false;
    }

abbrev terminated : LibError
terminated = record {
  variant = io_error;
  scsi_sense = none;
  is_scsi_transport_failure = false;
  is_bridge_degradation = false;
  is_unit_attention = false;
}

abbrev meets : Meets ℕ
meets = record {
  cancelled_sweep = λ attempt. false;
  cancelled_before = λ pass. false;
  cancelled_after = λ pass. false;
  cancelled_at_end = false;
  recover_transport = λ attempt e. false;
  titles_scope_bad = λ ranges. some 1;
  titles_lost_bytes = λ ranges. 0;
  titles_lost_ms = λ timed ranges. 0;
  load = λ d. ok whole;
  is_invalid_data = λ e. false;
  from_io = λ e. terminated;
  on_promote = calm;
  on_flush = calm;
  on_drop = calm;
  source_terminated = terminated;
}

abbrev opts : MultipassOpts
opts = record {
  max_passes = 2;
  abort_on_lost_secs = 0;
  is_iso_output = true;
  max_sweep_attempts = 1;
  resume_sweep = some false;
  finish_on_patch_failure = false;
  stop_after_wedge = true;
}

abbrev fresh_disk : Disk
fresh_disk = record { file = none; tmp = none }

wedged-is_early : is_early (recover lost_time (runs true) meets opts fresh_disk) ≡ true
unfolding recover recover_passes run_passes plan_passes sweep_attempts patch_passes
    pre_pass_converged patch_pass_decision_measured patch_pass_decision pass_exit interrupted
    new_result ranges_with
wedged-is_early = refl

recover-Kept_example : (disk_of (recover lost_time (runs true) meets opts fresh_disk)).file ≡ none
recover-Kept_example =
    recover-Kept lost_time (runs true) meets opts (λ (d : Disk). d.file ≡ none)
      (λ attempt resume d k. k) (λ pass d k. k) (λ d k. k) fresh_disk refl wedged-is_early

abbrev passes_of : Recovery ℕ → ℕ
passes_of (recovered r d) = r.passes
passes_of (recovery_failed e d) = 0

whole_passes : passes_of (recover lost_time (runs false) meets opts fresh_disk) ≡ 3
unfolding recover recover_passes run_passes plan_passes sweep_attempts patch_passes
    pre_pass_converged patch_pass_decision_measured patch_pass_decision pass_exit verdict_on
    promoted promote promote_loop any_hit flush loss_verdict loss_aborts judged map_stats
    ranges_with new_result compute_stats tally
whole_passes = refl

recover-PassesRan_example :
    PassesRan lost_time
      (runs false)
      meets
      opts
      true
      fresh_disk
      (recover lost_time (runs false) meets opts fresh_disk)
unfolding plan_passes
recover-PassesRan_example = recover-PassesRan lost_time (runs false) meets opts fresh_disk

abbrev one_pass : MultipassOpts
one_pass = record opts { max_passes = 0 }

-- Without patch passes the single pass is taken.
single_is_complete : is_complete (recover lost_time (runs false) meets one_pass fresh_disk) ≡ true
unfolding recover single_pass plan_passes new_result classify_damage
single_is_complete = refl

-- An unreadable mapfile fails the run, and a missing one does not.
abbrev is_failed : Recovery ℕ → Bool
is_failed (recovered r d) = false
is_failed (recovery_failed e d) = true

unreadable_map_fails :
    is_failed
      (recover lost_time (runs false) (record meets { load = λ d. err (io 5) }) one_pass fresh_disk)
    ≡ true
unfolding recover
unreadable_map_fails = refl

missing_map_starts_fresh :
    is_failed (
      recover lost_time
        (runs false)
        (record meets { load = λ d. err not_found })
        one_pass
        fresh_disk)
    ≡ false
unfolding recover single_pass plan_passes
missing_map_starts_fresh = refl

-- The most patch passes that a plan has.
patch_passes_capped : (plan_passes 255).patch_passes ≡ 253
unfolding plan_passes
patch_passes_capped = refl
