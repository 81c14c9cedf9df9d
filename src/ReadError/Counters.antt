-- ===== src/ReadError/Counters.antt =====
-- The counters and the damage zone of `ReadCtx` (src/recovery/read_error.rs).
use freemkv_engine.Base.{ℕ, ◌+◌, ◌≡◌, Bool, false, arith, if◌then◌else◌, not, ◌&&◌, ◌||◌}
use freemkv_engine.LibError.{LibError, is_key_stop}
use freemkv_engine.ReadError.{
  ReadCtx, ReadAction, Scsi, note_error, on_wedge, on_recovered, on_damage, jump_or_skip,
  damage_response, classify, handle_read_error, family_of,
}
use freemkv_engine.ReadError.Cases.{zone_entry, zoned, damage_cases, classify_cases}
use freemkv_engine.ReadError.Actions.{is_jump}

module _ {Family : Type 0} where
  -- What a response to an error does to the counters of the context that it is given: no error more,
  -- a jump exactly for a jump answer, a zone exactly where one is opened, and no zone is left.
  pub record Accounts (c : ReadCtx Family) (r : ReadAction × ReadCtx Family) : Type 0 where
    pub same_errors : r.1.total_errors ≡ c.total_errors
    pub same_reads : r.1.total_reads_ok ≡ c.total_reads_ok
    pub counts_jump : r.1.jumps_taken ≡ c.jumps_taken + (if is_jump r.0 then 1 else 0)
    pub counts_zone :
        r.1.zones_entered
        ≡ c.zones_entered + (if r.1.in_damage_zone && not c.in_damage_zone then 1 else 0)
    pub keeps_zone : (c.in_damage_zone || r.1.in_damage_zone) ≡ r.1.in_damage_zone

  jump_or_skip-Accounts : (pause : ℕ) (c : ReadCtx Family) → Accounts c (jump_or_skip pause c)
  unfolding jump_or_skip
  jump_or_skip-Accounts pause c = ground arith

  on_damage-Accounts : (zone : Bool) (c : ReadCtx Family) → Accounts c (on_damage zone c)
  unfolding on_damage jump_or_skip
  on_damage-Accounts zone c = ground arith

  on_damage-zone :
      (zone : Bool) (c : ReadCtx Family) → (on_damage zone c).1.in_damage_zone ≡ c.in_damage_zone
  unfolding on_damage jump_or_skip
  on_damage-zone zone c = ground arith

  module _ (scsi : Scsi Family) where
    zone_then :
        (err : LibError) (c : ReadCtx Family) (r : ReadAction × ReadCtx Family)
        → r.1.in_damage_zone ≡ (zoned scsi err c).in_damage_zone
        → Accounts (zoned scsi err c) r
        → Accounts c r
    zone_then err c r z a = ground arith

    damage_response-Accounts :
        (err : LibError) (c : ReadCtx Family) → Accounts c (damage_response scsi err c)
    damage_response-Accounts err c =
        damage_cases scsi (Accounts c) err c (λ w. unfold on_wedge in ground arith)
          (λ w r. unfold on_recovered in ground arith)
          (λ w.
            zone_then err c _ (on_damage-zone (zone_entry scsi err c) (zoned scsi err c))
              (on_damage-Accounts (zone_entry scsi err c) (zoned scsi err c)))

    classify-Accounts : (err : LibError) (c : ReadCtx Family) → Accounts c (classify scsi err c)
    classify-Accounts err c =
        classify_cases scsi (Accounts c) err c (λ _. ground arith) (λ _ _. ground arith)
          (λ _ _ _. ground arith) (λ _ _ _ _. ground arith)
          (λ _ _ _ _.
            ground (arith, damage_response-Accounts err (record c { not_ready_retries = 0 })))

    -- Every error but a key stop is counted once, and no good read is; the jumps are counted by the
    -- jump answers, the zones by the entries into one; an error never ends a zone.
    pub handle_read_error_counts :
        (now : ℕ) (err : LibError) (c : ReadCtx Family)
        → is_key_stop err.variant ≡ false
        → let (action, c') = handle_read_error scsi now err c in
          (c'.total_errors ≡ c.total_errors + 1)
          × (c'.total_reads_ok ≡ c.total_reads_ok)
          × (c'.jumps_taken ≡ c.jumps_taken + (if is_jump action then 1 else 0))
          × (c'.zones_entered
              ≡ c.zones_entered + (if c'.in_damage_zone && not c.in_damage_zone then 1 else 0))
          × ((c.in_damage_zone || c'.in_damage_zone) ≡ c'.in_damage_zone)
    unfolding handle_read_error
    handle_read_error_counts now err c h =
        let a = classify-Accounts err (note_error now (family_of scsi err) c) in
        rw h (a.same_errors, a.same_reads, a.counts_jump, a.counts_zone, a.keeps_zone)
