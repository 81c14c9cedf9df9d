-- ===== src/ReadError/Invariant.antt =====
-- What every read outcome keeps of `ReadCtx` (src/recovery/read_error.rs).
use freemkv_engine.Base.{
  ℕ, ◌≤◌, Bool, true, false, List, [], ◌∷◌, arith, length, length-append, if◌then◌else◌, Bool-cases,
  inl, inr, not, ◌&&◌, ◌==◌,
}
use freemkv_engine.LibError.{LibError}
use freemkv_engine.ReadError.{
  ReadCtx, Scsi, push_outcome, for_sweep, on_success, note_error, on_wedge, on_recovered,
  enter_zone, on_damage, jump_or_skip, damage_response, classify, handle_read_error, choose_pause,
  is_wedge, is_recovered, sense_key_of, family_of,
}

-- The window, the jump multiplier and the retry budgets stay within their bounds.
pub record IsValid {Family : Type 0} (c : ReadCtx Family) : Type 0 where
  pub window : length c.damage_window ≤ c.damage_window_max
  pub multiplier_low : 1 ≤ c.jump_multiplier
  pub multiplier_high : c.jump_multiplier ≤ 64
  pub not_ready : c.not_ready_retries ≤ 3
  pub bridge : c.bridge_degradation_count ≤ 5

length-push_outcome :
    (cap : ℕ) (outcome : Bool) (window : List Bool)
    → length window ≤ cap
    → length (push_outcome cap outcome window) ≤ cap
unfolding push_outcome
length-push_outcome cap outcome [] h = ground arith
length-push_outcome cap outcome (b ∷ window) h = ground (arith, length-append window (outcome ∷ []))

module _ {Family : Type 0} where
  pub for_sweep-IsValid : (batch : ℕ) → IsValid (for_sweep {Family = Family} batch)
  unfolding for_sweep
  for_sweep-IsValid batch = ground arith

  -- A good read keeps the bounds.
  pub on_success-IsValid : (now : ℕ) (c : ReadCtx Family) → IsValid c → IsValid (on_success now c)
  unfolding on_success
  on_success-IsValid now c v =
      ground (arith, length-push_outcome c.damage_window_max true c.damage_window)

  jump_or_skip-IsValid :
      (pause : ℕ) (c : ReadCtx Family) → IsValid c → IsValid (jump_or_skip pause c).1
  unfolding jump_or_skip
  jump_or_skip-IsValid pause c v = ground arith

  on_damage-IsValid :
      (zone_entry : Bool) (c : ReadCtx Family) → IsValid c → IsValid (on_damage zone_entry c).1
  unfolding on_damage
  on_damage-IsValid zone_entry c v =
      jump_or_skip-IsValid (paused.0) (paused.1)
        (ground (arith, length-push_outcome c.damage_window_max false c.damage_window))
    where
      paused : ℕ × ReadCtx Family
      paused =
          choose_pause zone_entry
            (record c { damage_window = push_outcome c.damage_window_max false c.damage_window })

  module _ (scsi : Scsi Family) where
    enter_zone-IsValid :
        (enters : Bool) (c : ReadCtx Family)
        → IsValid c
        → IsValid (if enters then enter_zone c else c)
    enter_zone-IsValid enters c v = ground arith

    damage_response-IsValid :
        (err : LibError) (c : ReadCtx Family) → IsValid c → IsValid (damage_response scsi err c).1
    unfolding damage_response
    damage_response-IsValid err c v =
        let enters = not c.in_damage_zone && not (is_recovered scsi err) in
        let c' = if enters then enter_zone c else c in
        let v' = enter_zone-IsValid enters c v in
        elim (Bool-cases (is_wedge scsi err)) [
          | inl wedge ↦ rw wedge (unfold on_wedge in ground arith)
          | inr other ↦
              rw other (elim (Bool-cases (sense_key_of scsi err == scsi.recovered_error)) [
                | inl recovered ↦ rw recovered (unfold on_recovered in ground arith)
                | inr damage ↦ rw damage (on_damage-IsValid enters c' v')
              ])
        ]

    classify-IsValid :
        (err : LibError) (c : ReadCtx Family) → IsValid c → IsValid (classify scsi err c).1
    unfolding classify
    classify-IsValid err c v =
        ground (arith, damage_response-IsValid err (record c { not_ready_retries = 0 }))

    -- A failed read keeps the bounds of the context: the damage window, the jump multiplier and the
    -- two retry counts.
    pub handle_read_error-IsValid :
        (now : ℕ) (err : LibError) (c : ReadCtx Family)
        → IsValid c
        → IsValid (handle_read_error scsi now err c).1
    unfolding handle_read_error
    handle_read_error-IsValid now err c v =
        ground (arith, classify-IsValid err (note_error now (family_of scsi err) c))
