-- ===== src/Multipass/Counted.antt =====
-- The passes of a recovery (src/multipass.rs): which ran, on which disk, and how many.
use freemkv_engine.Base.{
  ℕ, zero, suc, ◌+◌, ◌≤◌, ◌<◌, ◌≡◌, refl, sym, ap, subst, Bool, true, false, not, ◌&&◌, ◌||◌,
  Option, none, some, arith, ltb, min, max, if_cases, if_split, if◌then◌else◌,
}
use freemkv_engine.LibError.{LibError}
use freemkv_engine.Mapfile.State.{Mapfile, Error, Result, ok, err}
use freemkv_engine.Mapfile.Persist.{Disk}
use freemkv_engine.Copy.{CopyResult}
use freemkv_engine.Multipass.{
  LostTime, Passes, Meets, MultipassOpts, PassResult, passed, failed, PatchOutcome, Progress,
  PassesEnd, over, wedged_out, pass_failed, Recovery, recovered, recovery_failed, after_sweep,
  sweep_attempts, scope_bad_of, after_pass, after_patch, patch_passes, then_patches, run_passes,
  plan_passes, read_back, finish, recover, recover_passes, single_pass, prior_error, states_mode,
  takes_passes, interrupted, verdict_on, judged, pass_exit, is_cancelled, is_wedged, is_no_progress,
  patch_pass_decision_measured, pre_pass_converged,
}

-- From the disk `d0` on, the sweep was tried so many times and failed each time. Only the first
-- attempt takes `resume` as it is given; a later one resumes in any case.
pub data Swept (run : Passes) (resume : Bool) (d0 : Disk) : ℕ → Disk → Type 0 where
  untried : Swept run resume d0 0 d0
  retried :
      {k : ℕ} {d : Disk} (e : LibError)
      → Swept run resume d0 k d
      → (run.sweep (k + 1) (resume || ltb 1 (k + 1)) d).0 ≡ failed e
      → Swept run resume d0 (k + 1) (run.sweep (k + 1) (resume || ltb 1 (k + 1)) d).1

-- So many passes went through, each on the disk the one before it left: a sweep, after fewer failed
-- attempts than it may have, then the patch passes, numbered from 2 on.
pub data Ran (run : Passes) (resume : Bool) (attempts : ℕ) (d0 : Disk) : ℕ → Disk → Type 0 where
  swept :
      {k : ℕ} {d : Disk} (sr : CopyResult)
      → Swept run resume d0 k d
      → k < attempts
      → (run.sweep (k + 1) (resume || ltb 1 (k + 1)) d).0 ≡ passed sr
      → Ran run resume attempts d0 1 (run.sweep (k + 1) (resume || ltb 1 (k + 1)) d).1
  patched :
      {n : ℕ} {d : Disk} (pr : PatchOutcome)
      → Ran run resume attempts d0 n d
      → (run.patch (n + 1) d).0 ≡ passed pr
      → Ran run resume attempts d0 (n + 1) (run.patch (n + 1) d).1

module _ {Ms : Type 0} (t : LostTime Ms) (run : Passes) (meets : Meets Ms) (opts : MultipassOpts)
    (resume : Bool) (attempts : ℕ) (d0 : Disk) where
  -- The disk after the last pass that went through.
  pub record Counts (most passes : ℕ) : Type 0 where
    pub disk : Disk
    pub ran : Ran run resume attempts d0 passes disk
    pub few : passes ≤ most

  abbrev CountsEnd : ℕ → PassesEnd → Type 0
  CountsEnd most (over p) = Counts most p.passes
  CountsEnd most (wedged_out p) = Counts most p.passes
  CountsEnd most (pass_failed e d) = Unit {0}

  -- After the sweep the progress stands on the disk of its last pass.
  abbrev Sweeps : PassesEnd → Type 0
  Sweeps (over p) = Ran run resume attempts d0 p.passes p.disk × (p.passes ≡ 1)
  Sweeps (wedged_out p) = ⊥
  Sweeps (pass_failed e d) = Unit {0}

  after_sweep-Sweeps :
      (k : ℕ) (d : Disk) (again : LibError → Disk → PassesEnd) (r : PassResult CopyResult × Disk)
      → Swept run resume d0 k d
      → k < attempts
      → run.sweep (k + 1) (resume || ltb 1 (k + 1)) d ≡ r
      → ((e : LibError) → Swept run resume d0 (k + 1) r.1 → Sweeps (again e r.1))
      → Sweeps (after_sweep t run meets opts (k + 1) again r)
  after_sweep-Sweeps k d again (passed sr, d') s few e h = (
    subst (λ (r : PassResult CopyResult × Disk). Ran run resume attempts d0 1 r.1) e
        (swept sr s few (ap (λ (r : PassResult CopyResult × Disk). r.0) e)),
    refl,
  )
  after_sweep-Sweeps k d again (failed e', d') s few eq h =
      if_cases Sweeps
        (e'.is_scsi_transport_failure
          && not (meets.cancelled_sweep (k + 1))
          && meets.recover_transport (k + 1) e')
        (again e' d') (pass_failed e' d')
        (h e' (
          subst (λ (r : PassResult CopyResult × Disk). Swept run resume d0 (k + 1) r.1) eq
            (retried e' s (ap (λ (r : PassResult CopyResult × Disk). r.0) eq))))
        tt

  sweep_attempts-Sweeps :
      (left k : ℕ) (last : Option LibError) (d : Disk)
      → Swept run resume d0 k d
      → k + left ≤ attempts
      → Sweeps (sweep_attempts t run meets opts left k resume last d)
  unfolding sweep_attempts
  sweep_attempts-Sweeps zero k last d s few = tt
  sweep_attempts-Sweeps (suc left) k last d s few =
      after_sweep-Sweeps k d
        (λ e d'. sweep_attempts t run meets opts left (k + 1) resume (some e) d')
        (run.sweep (k + 1) (resume || ltb 1 (k + 1)) d) s (omega arith) refl
        (λ e s'. sweep_attempts-Sweeps left (k + 1) (some e) _ s' (omega arith))

  after_patch-Counts :
      (most : ℕ) (scope_bad : Option ℕ) (p : Progress) (again : Progress → PassesEnd)
      (r : PassResult PatchOutcome × Disk)
      → Ran run resume attempts d0 p.passes p.disk
      → p.passes + 1 ≤ most
      → run.patch (p.passes + 1) p.disk ≡ r
      → ((p' : Progress)
          → p'.passes ≡ p.passes + 1
          → Ran run resume attempts d0 p'.passes p'.disk
          → CountsEnd most (again p'))
      → CountsEnd most (after_patch t run meets opts (p.passes + 1) scope_bad p again r)
  after_patch-Counts most scope_bad p again (passed pr, d) ran few e h =
      let p' = after_pass t run meets opts pr d p in
      let exit = pass_exit pr.halted pr.wedged_exit in
      let ran' : Ran run resume attempts d0 (p.passes + 1) d =
        subst
          (λ (r : PassResult PatchOutcome × Disk). Ran run resume attempts d0 (p.passes + 1) r.1) e
          (patched pr ran (ap (λ (r : PassResult PatchOutcome × Disk). r.0) e)) in
      let counts : Counts most (p.passes + 1) = record { disk = d; ran = ran'; few = few } in
      if_cases (CountsEnd most) (is_cancelled exit || meets.cancelled_after (p.passes + 1))
        (over (record p' { halted = true })) _ counts
        (if_cases (CountsEnd most) (is_wedged exit && opts.stop_after_wedge) (wedged_out p') _
          counts
          (if_cases (CountsEnd most)
            (is_no_progress
              (patch_pass_decision_measured scope_bad (some pr.bytes_recovered_this_pass)))
            (over p') (again p') counts (h p' refl ran')))
  after_patch-Counts most scope_bad p again (failed e, d) ran few _ h =
      if_cases (CountsEnd most) opts.finish_on_patch_failure (over (record p { disk = d }))
        (pass_failed e d) (record { disk = p.disk; ran = ran; few = omega arith }) tt

  patch_passes-Counts :
      (most left pass : ℕ) (p : Progress)
      → pass ≡ p.passes + 1
      → Ran run resume attempts d0 p.passes p.disk
      → p.passes + left ≤ most
      → CountsEnd most (patch_passes t run meets opts left pass p)
  unfolding patch_passes
  patch_passes-Counts most zero pass p n ran few = record {
    disk = p.disk;
    ran = ran;
    few = omega arith;
  }
  patch_passes-Counts most (suc left) pass p n ran few =
      let scope_bad = scope_bad_of t run meets opts (meets.load p.disk) in
      let again = patch_passes t run meets opts left (pass + 1) in
      let counts : Counts most p.passes = record { disk = p.disk; ran = ran; few = omega arith } in
      if_cases (CountsEnd most) (meets.cancelled_before pass) (over (record p { halted = true })) _
        counts
        (if_cases (CountsEnd most) (pre_pass_converged scope_bad p.last_good) (over p)
          (after_patch t run meets opts pass scope_bad p again (run.patch pass p.disk)) counts
          (subst
            (λ pass'.
              CountsEnd most
                (after_patch t run meets opts pass' scope_bad p again (run.patch pass' p.disk)))
            (sym n)
            (after_patch-Counts most scope_bad p again (run.patch (p.passes + 1) p.disk) ran
              (omega arith) refl
              (λ p' e ran'.
                patch_passes-Counts most left (pass + 1) p' (omega arith) ran' (omega arith)))))

  then_patches-Counts :
      (left : ℕ) (e : PassesEnd)
      → Sweeps e
      → CountsEnd (1 + left) (then_patches t run meets opts left e)
  then_patches-Counts left (over p) c =
      if_cases (CountsEnd (1 + left)) p.halted (over p) (patch_passes t run meets opts left 2 p)
        (record { disk = p.disk; ran = c.0; few = omega (arith, c.1) })
        (patch_passes-Counts (1 + left) left 2 p (omega (arith, c.1)) c.0 (omega (arith, c.1)))
  then_patches-Counts left (wedged_out p) c = absurd c
  then_patches-Counts left (pass_failed e d) c = tt

  abbrev pub CountsRecovery : ℕ → Recovery Ms → Type 0
  CountsRecovery most (recovered r d) = Counts most r.passes
  CountsRecovery most (recovery_failed e d) = Unit {0}

  read_back-CountsRecovery :
      (most : ℕ) (p : Progress) (m : Result Mapfile)
      → Counts most p.passes
      → CountsRecovery most (read_back t run meets opts p m)
  unfolding verdict_on judged
  read_back-CountsRecovery most p (ok m) c = c
  read_back-CountsRecovery most p (err e) c = c

  finish-CountsRecovery :
      (most : ℕ) (e : PassesEnd)
      → CountsEnd most e
      → CountsRecovery most (finish t run meets opts e)
  unfolding interrupted
  finish-CountsRecovery most (over p) c =
      if_cases (CountsRecovery most) (p.halted || meets.cancelled_at_end)
        (recovered (interrupted t run meets opts false p) p.disk)
        (read_back t run meets opts p (meets.load p.disk)) c
        (read_back-CountsRecovery most p (meets.load p.disk) c)
  finish-CountsRecovery most (wedged_out p) c = c
  finish-CountsRecovery most (pass_failed e d) c = tt

module _ {Ms : Type 0} (t : LostTime Ms) (run : Passes) (meets : Meets Ms)
    (opts : MultipassOpts) where
  -- Whether the first sweep resumes the mapfile that is there.
  abbrev pub resumes : Disk → Bool
  resumes d = elim opts.resume_sweep as (λ _. Bool) [
    | none ↦ states_mode t run meets opts (meets.load d)
    | some b ↦ b
  ]

  abbrev attempts_of : ℕ
  attempts_of = max opts.max_sweep_attempts 1

  abbrev most_of : ℕ
  most_of = 1 + min opts.max_passes 253

  -- The passes that a result states are the passes that went through, of several or of a single one.
  abbrev pub PassesRan : Bool → Disk → Recovery Ms → Type 0
  PassesRan true d (recovered r d') =
      Counts t run meets opts (resumes d) attempts_of d most_of r.passes
  PassesRan false d (recovered r d') =
      ((cr : CopyResult) × ((run.single d).0 ≡ passed cr)) × (r.passes ≡ 1)
  PassesRan several d (recovery_failed e d') = Unit {0}

  many-PassesRan :
      (d : Disk) (r : Recovery Ms)
      → CountsRecovery t run meets opts (resumes d) attempts_of d most_of r
      → PassesRan true d r
  many-PassesRan d (recovered r d') c = c
  many-PassesRan d (recovery_failed e d') c = tt

  single_pass-PassesRan :
      (d : Disk) (r : PassResult CopyResult × Disk)
      → run.single d ≡ r
      → PassesRan false d (single_pass t run meets opts r)
  unfolding single_pass
  single_pass-PassesRan d (passed cr, d') eq =
      ((cr, ap (λ (r : PassResult CopyResult × Disk). r.0) eq), refl)
  single_pass-PassesRan d (failed e, d') eq = tt

  failed-PassesRan :
      (several : Bool) (d d' : Disk) (e : LibError) → PassesRan several d (recovery_failed e d')
  failed-PassesRan true d d' e = tt
  failed-PassesRan false d d' e = tt

  recover_passes-CountsRecovery :
      (d : Disk)
      → CountsRecovery t run meets opts
          (resumes d)
          attempts_of
          d
          most_of
          (recover_passes t run meets opts (states_mode t run meets opts (meets.load d)) d)
  unfolding recover_passes run_passes plan_passes
  recover_passes-CountsRecovery d =
      let left : ℕ = (plan_passes (min opts.max_passes 255)).patch_passes in
      let end = sweep_attempts t run meets opts attempts_of 0 (resumes d) none d in
      subst
        (λ most.
          CountsRecovery t run meets opts (resumes d) attempts_of d most
            (recover_passes t run meets opts (states_mode t run meets opts (meets.load d)) d))
        (ground arith)
        (finish-CountsRecovery t run meets opts (resumes d) attempts_of d (1 + left)
          (then_patches t run meets opts left end)
          (then_patches-Counts t run meets opts (resumes d) attempts_of d left end (
            sweep_attempts-Sweeps t run meets opts (resumes d) attempts_of d attempts_of 0 none d
              untried (omega arith))))

  -- A recovery that does not fail states the passes that went through. Of several passes these are one
  -- sweep, after fewer failed attempts than it may have, and the patch passes after it, numbered from
  -- 2 on, each on the disk that the one before it left: no more than it may take, and no more than
  -- 253, the cap of the plan. A patch pass that fails is not among them, nor is its disk. A single
  -- pass went through and states one.
  pub recover-PassesRan :
      (d : Disk) → PassesRan (takes_passes t run meets opts) d (recover t run meets opts d)
  unfolding recover
  recover-PassesRan d =
      elim (prior_error t run meets opts (meets.load d))
        as (λ (prior : Option Error).
          PassesRan (takes_passes t run meets opts) d (elim prior as (λ _. Recovery Ms) [
            | some e ↦ recovery_failed (meets.from_io e) d
            | none ↦
                (if takes_passes t run meets opts
                  then recover_passes t run meets opts (states_mode t run meets opts (meets.load d))
                      d
                  else single_pass t run meets opts (run.single d))
          ])) [
            | some e ↦ failed-PassesRan (takes_passes t run meets opts) d d (meets.from_io e)
            | none ↦
                if_split (PassesRan (takes_passes t run meets opts) d)
                  (takes_passes t run meets opts)
                  (recover_passes t run meets opts (states_mode t run meets opts (meets.load d)) d)
                  (single_pass t run meets opts (run.single d))
                  (λ many.
                    subst
                      (λ b. PassesRan b d (
                        recover_passes t run meets opts
                          (states_mode t run meets opts (meets.load d)) d))
                      (sym many) (many-PassesRan d _ (recover_passes-CountsRecovery d)))
                  (λ one.
                    subst (λ b. PassesRan b d (single_pass t run meets opts (run.single d)))
                      (sym one) (single_pass-PassesRan d (run.single d) refl))
          ]
