-- ===== src/ReadError/Retries.antt =====
-- Sequences of failed reads with no good read between them (src/recovery/read_error.rs): the retry
-- budgets and the wedge budget run out.
use freemkv_engine.Base.{
  ℕ, ◌+◌, ◌-◌, ◌≤◌, ◌<◌, ◌≡◌, refl, Bool, true, false, List, [], ◌∷◌, arith, length, All, leb, ◌&&◌,
  ◌==◌,
}
use freemkv_engine.LibError.{LibError, is_key_stop}
use freemkv_engine.ReadError.{
  ReadCtx, ReadAction, Scsi, note_error, on_wedge, on_recovered, on_damage, jump_or_skip,
  damage_response, classify, handle_read_error, is_wedge, family_of, sense_key_of,
}
use freemkv_engine.ReadError.Cases.{zone_entry, zoned, damage_cases}
use freemkv_engine.ReadError.Actions.{is_retry, is_abort, handle_read_error-abort}

module _ {Family : Type 0} where
  -- The retries that the two budgets still allow.
  abbrev pub retries_left : ReadCtx Family → ℕ
  retries_left c = (5 - c.bridge_degradation_count) + (3 - c.not_ready_retries)

  jump_or_skip-retry : (pause : ℕ) (c : ReadCtx Family) → is_retry (jump_or_skip pause c).0 ≡ false
  unfolding jump_or_skip
  jump_or_skip-retry pause c = ground arith

  on_damage-retry : (zone : Bool) (c : ReadCtx Family) → is_retry (on_damage zone c).0 ≡ false
  unfolding on_damage
  on_damage-retry zone c = jump_or_skip-retry _ _

  module _ (scsi : Scsi Family) where
    -- What a retry costs.
    abbrev pub Spends : ReadCtx Family → ReadAction × ReadCtx Family → Type 0
    Spends c r = is_retry r.0 ≡ true → retries_left r.1 < retries_left c

    damage_response-retry :
        (err : LibError) (c : ReadCtx Family) → is_retry (damage_response scsi err c).0 ≡ false
    damage_response-retry err c =
        damage_cases scsi (λ r. is_retry r.0 ≡ false) err c (λ w. unfold on_wedge in ground arith)
          (λ w r. unfold on_recovered in refl)
          (λ w. on_damage-retry (zone_entry scsi err c) (zoned scsi err c))

    -- Every retry takes one from the budgets.
    pub handle_read_error-retry :
        (now : ℕ) (err : LibError) (c : ReadCtx Family)
        → Spends c (handle_read_error scsi now err c)
    unfolding handle_read_error classify
    handle_read_error-retry now err c h =
        let noted = note_error now (family_of scsi err) c in
        ground (arith, damage_response-retry err (record noted { not_ready_retries = 0 }))

    -- The contexts along a sequence of failed reads, each at its time, and whether each answer is a
    -- retry.
    unfoldable pub run_errors : List (ℕ × LibError) → ReadCtx Family → ReadCtx Family
    run_errors [] c = c
    run_errors ((now, err) ∷ errs) c = run_errors errs (handle_read_error scsi now err c).1

    unfoldable pub all_retried : List (ℕ × LibError) → ReadCtx Family → Bool
    all_retried [] c = true
    all_retried ((now, err) ∷ errs) c =
        is_retry (handle_read_error scsi now err c).0
        && all_retried errs (handle_read_error scsi now err c).1

    -- A sequence of failed reads that are all answered by a retry is no longer than the retries that
    -- the two budgets still allow: a retry of a degraded bridge gives nothing back to the budget of a
    -- drive that is not ready, nor the other way round.
    pub all_retried-le :
        (errs : List (ℕ × LibError)) (c : ReadCtx Family)
        → all_retried errs c ≡ true
        → length errs ≤ retries_left c
    unfolding all_retried
    all_retried-le [] c h = omega arith
    all_retried-le ((now, err) ∷ errs) c h = ground (
      arith,
      handle_read_error-retry now err c,
      all_retried-le errs (handle_read_error scsi now err c).1,
    )

    -- An error of the wedge family that is neither retried nor an abort of another kind.
    pub record IsPlainWedge (err : LibError) : Type 0 where
      pub wedge : is_wedge scsi err ≡ true
      pub no_stop : is_key_stop err.variant ≡ false
      pub no_transport : err.is_scsi_transport_failure ≡ false
      pub no_attention : err.is_unit_attention ≡ false
      pub no_bridge : err.is_bridge_degradation ≡ false
      pub ready : (sense_key_of scsi err == scsi.not_ready) ≡ false

    wedge_counts :
        (now : ℕ) (err : LibError) (c : ReadCtx Family)
        → IsPlainWedge err
        → (handle_read_error scsi now err c).1.wedge_count ≡ c.wedge_count + 1
    unfolding handle_read_error classify damage_response on_wedge
    wedge_counts now err c w = ground arith

    run_wedges-count :
        (errs : List (ℕ × LibError)) (c : ReadCtx Family)
        → All (λ e. IsPlainWedge e.1) errs
        → (run_errors errs c).wedge_count ≡ c.wedge_count + length errs
    unfolding run_errors
    run_wedges-count [] c h = omega arith
    run_wedges-count ((now, err) ∷ errs) c h = omega (
      arith,
      wedge_counts now err c h.0,
      run_wedges-count errs (handle_read_error scsi now err c).1 h.1,
    )

    -- After a sequence of wedge errors with no good read between them, from a wedge count of zero,
    -- one more wedge error aborts the pass exactly if the sequence has at least fifteen.
    pub wedge_run_aborts :
        (errs : List (ℕ × LibError)) (c : ReadCtx Family) (now : ℕ) (err : LibError)
        → c.wedge_count ≡ 0
        → All (λ e. IsPlainWedge e.1) errs
        → IsPlainWedge err
        → is_abort (handle_read_error scsi now err (run_errors errs c)).0 ≡ leb 15 (length errs)
    wedge_run_aborts errs c now err z h w =
        ground (
          arith,
          handle_read_error-abort scsi now err (run_errors errs c),
          run_wedges-count errs c h,
        )
