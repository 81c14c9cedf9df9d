-- ===== src/ReadError/Actions.antt =====
-- Which action `handle_read_error` (src/recovery/read_error.rs) answers with, and its counters.
use freemkv_engine.Base.{
  ℕ, ◌+◌, ◌*◌, ◌≤◌, ◌<◌, ◌≡◌, refl, Bool, true, false, arith, Bool-cases, inl, inr, not, ◌&&◌, ◌||◌,
  leb, min, max, saturating_mul, u64_max,
}
use freemkv_engine.LibError.{LibError, is_key_stop}
use freemkv_engine.ReadError.{
  ReadCtx, ReadAction, retry, skip_block, jump_ahead, abort_pass, Scsi, note_error, on_wedge,
  on_recovered, enter_zone, on_damage, jump_or_skip, damage_response, classify, handle_read_error,
  push_outcome, is_wedge, family_of,
}
use freemkv_engine.ReadError.Cases.{
  zone_entry, zoned, damage_cases, classify_cases, bridge_retry, not_ready_retry,
}
use freemkv_engine.ReadError.Invariant.{IsValid}

abbrev pub is_abort : ReadAction → Bool
is_abort abort_pass = true
is_abort _ = false

abbrev pub is_retry : ReadAction → Bool
is_retry (retry _) = true
is_retry _ = false

abbrev pub is_jump : ReadAction → Bool
is_jump (jump_ahead _ _) = true
is_jump _ = false

-- What an action may ask of the drive: a jump of at least one sector and at most the wedge jump or
-- 65536 batches, and a pause of at most 32 seconds.
abbrev pub IsBounded : ℕ → ReadAction → Type 0
IsBounded batch (retry pause) = pause ≤ 32
IsBounded batch (skip_block pause) = pause ≤ 32
IsBounded batch (jump_ahead sectors pause) =
    (0 < sectors) × (sectors ≤ max 524288 (65536 * batch)) × (pause ≤ 32)
IsBounded batch abort_pass = Unit {0}

product_bounds : (x k : ℕ) → 0 < x → 1 ≤ k → k ≤ 64 → (0 < x * k) × (x * k ≤ 64 * x)
product_bounds x k h i j = grind arith

-- The damage-jump is at least one sector and at most 65536 batches.
jump_size :
    (batch mult : ℕ)
    → 0 < batch
    → 1 ≤ mult
    → let size = saturating_mul (saturating_mul 1024 batch) (min mult 64) in
      (0 < size) × (size ≤ 65536 * batch)
jump_size batch mult b m =
    let x : ℕ = min (1024 * batch) u64_max in
    let k : ℕ = min mult 64 in
    omega (arith, product_bounds x k (omega arith) (omega arith) (omega arith))

module _ {Family : Type 0} where
  jump_or_skip-abort : (pause : ℕ) (c : ReadCtx Family) → is_abort (jump_or_skip pause c).0 ≡ false
  unfolding jump_or_skip
  jump_or_skip-abort pause c = ground arith

  on_damage-abort :
      (zone_entry : Bool) (c : ReadCtx Family) → is_abort (on_damage zone_entry c).0 ≡ false
  unfolding on_damage
  on_damage-abort zone_entry c = jump_or_skip-abort _ _

  jump_or_skip-IsBounded :
      (pause : ℕ) (c : ReadCtx Family)
      → 0 < c.batch
      → 1 ≤ c.jump_multiplier
      → pause ≤ 30
      → IsBounded c.batch (jump_or_skip pause c).0
  unfolding jump_or_skip
  jump_or_skip-IsBounded pause c b m h = ground (arith, jump_size c.batch c.jump_multiplier b m)

  on_damage-IsBounded :
      (zone_entry : Bool) (c : ReadCtx Family)
      → 0 < c.batch
      → 1 ≤ c.jump_multiplier
      → IsBounded c.batch (on_damage zone_entry c).0
  unfolding on_damage
  on_damage-IsBounded zone_entry c b m = elim (Bool-cases (zone_entry && not c.patch_pass)) [
    | inl cooled ↦ rw cooled (jump_or_skip-IsBounded 30 windowed b m (omega arith))
    | inr other ↦ rw other (elim (Bool-cases (leb 10 c.consecutive_failures)) [
      | inl long ↦ rw long (jump_or_skip-IsBounded 5 escalated b m (omega arith))
      | inr short ↦ rw short (jump_or_skip-IsBounded 5 windowed b m (omega arith))
    ])
  ]
    where
      windowed : ReadCtx Family
      windowed = record c { damage_window = push_outcome c.damage_window_max false c.damage_window }

      escalated : ReadCtx Family
      escalated = record windowed { long_pause_escalations = c.long_pause_escalations + 1 }

  module _ (scsi : Scsi Family) where
    damage_response-abort :
        (err : LibError) (c : ReadCtx Family)
        → is_abort (damage_response scsi err c).0
          ≡ (is_wedge scsi err && leb 16 (c.wedge_count + 1))
    unfolding damage_response
    damage_response-abort err c =
        damage_cases scsi (λ r. is_abort r.0 ≡ (is_wedge scsi err && leb 16 (c.wedge_count + 1)))
          err c (λ w. rw w (unfold on_wedge in ground arith))
          (λ w r. rw w (unfold on_recovered in refl))
          (λ w. rw w (on_damage-abort (zone_entry scsi err c) (zoned scsi err c)))

    -- The pass is aborted exactly on a key stop, a transport failure, a unit attention, or a wedge
    -- that has no retry left and is the sixteenth since the last good read.
    pub handle_read_error-abort :
        (now : ℕ) (err : LibError) (c : ReadCtx Family)
        → is_abort (handle_read_error scsi now err c).0 ≡ (
            is_key_stop err.variant
            || err.is_scsi_transport_failure
            || err.is_unit_attention
            || (not (bridge_retry scsi err c || not_ready_retry scsi err c)
                && is_wedge scsi err
                && leb 16 (c.wedge_count + 1)))
    unfolding handle_read_error classify
    handle_read_error-abort now err c =
        let noted = note_error now (family_of scsi err) c in
        ground (arith, damage_response-abort err (record noted { not_ready_retries = 0 }))

    damage_response-IsBounded :
        (err : LibError) (c : ReadCtx Family)
        → 0 < c.batch
        → 1 ≤ c.jump_multiplier
        → IsBounded c.batch (damage_response scsi err c).0
    damage_response-IsBounded err c b m =
        damage_cases scsi (λ r. IsBounded c.batch r.0) err c (λ w. unfold on_wedge in ground arith)
          (λ w r. unfold on_recovered in omega arith)
          (λ w. elim (Bool-cases (zone_entry scsi err c)) [
            | inl z ↦ rw z (on_damage-IsBounded true (enter_zone c) b m)
            | inr z ↦ rw z (on_damage-IsBounded false c b m)
          ])

    classify-IsBounded :
        (err : LibError) (c : ReadCtx Family)
        → 0 < c.batch
        → 1 ≤ c.jump_multiplier
        → IsBounded c.batch (classify scsi err c).0
    classify-IsBounded err c b m =
        classify_cases scsi (λ r. IsBounded c.batch r.0) err c (λ _. tt) (λ _ _. tt)
          (λ _ _ _. omega arith) (λ _ _ _ _. omega arith)
          (λ _ _ _ _. damage_response-IsBounded err (record c { not_ready_retries = 0 }) b m)

    -- From a context within its bounds and with a batch of at least one sector, a jump is of at least
    -- one sector and at most the wedge jump or 65536 batches, and no pause is over 32 seconds.
    pub handle_read_error-IsBounded :
        (now : ℕ) (err : LibError) (c : ReadCtx Family)
        → IsValid c
        → 0 < c.batch
        → IsBounded c.batch (handle_read_error scsi now err c).0
    unfolding handle_read_error
    handle_read_error-IsBounded now err c v b = elim (Bool-cases (is_key_stop err.variant)) [
      | inl stop ↦ rw stop tt
      | inr other ↦
          rw other
            (classify-IsBounded err (note_error now (family_of scsi err) c) b v.multiplier_low)
    ]

    -- A key stop aborts the pass and counts as nothing.
    pub handle_read_error_key_stop :
        (now : ℕ) (err : LibError) (c : ReadCtx Family)
        → is_key_stop err.variant ≡ true
        → handle_read_error scsi now err c ≡ (abort_pass, c)
    unfolding handle_read_error
    handle_read_error_key_stop now err c h = rw h
