-- ===== src/ReadError/Cases.antt =====
-- Case rules for `handle_read_error` (src/recovery/read_error.rs).
use freemkv_engine.Base.{
  ◌≡◌, Bool, true, false, if◌then◌else◌, Bool-cases, inl, inr, not, ◌&&◌, ◌==◌, ltb, ◌+◌,
}
use freemkv_engine.LibError.{LibError}
use freemkv_engine.ReadError.{
  ReadCtx, ReadAction, retry, abort_pass, Scsi, on_wedge, on_recovered, enter_zone, on_damage,
  damage_response, classify, is_wedge, is_recovered, sense_key_of,
}

module _ {Family : Type 0} (scsi : Scsi Family) where
  -- Whether the error takes the pass from clean ground into a damage zone, and the context after.
  abbrev pub zone_entry : LibError → ReadCtx Family → Bool
  zone_entry err c = not c.in_damage_zone && not (is_recovered scsi err)

  abbrev pub zoned : LibError → ReadCtx Family → ReadCtx Family
  zoned err c = if zone_entry err c then enter_zone c else c

  pub damage_cases {ℓ} :
      (P : ReadAction × ReadCtx Family → Type ℓ) (err : LibError) (c : ReadCtx Family)
      → (is_wedge scsi err ≡ true → P (on_wedge (zoned err c)))
      → (is_wedge scsi err ≡ false
          → (sense_key_of scsi err == scsi.recovered_error) ≡ true
          → P (on_recovered (zoned err c)))
      → (is_wedge scsi err ≡ false → P (on_damage (zone_entry err c) (zoned err c)))
      → P (damage_response scsi err c)
  unfolding damage_response
  damage_cases P err c wedge recovered damage = elim (Bool-cases (is_wedge scsi err)) [
    | inl w ↦ rw w (wedge w)
    | inr other ↦ rw other (elim (Bool-cases (sense_key_of scsi err == scsi.recovered_error)) [
      | inl r ↦ rw r (recovered other r)
      | inr d ↦ rw d (damage other)
    ])
  ]

  -- The first two retries, by their budgets.
  abbrev pub bridge_retry : LibError → ReadCtx Family → Bool
  bridge_retry err c = err.is_bridge_degradation && ltb c.bridge_degradation_count 5

  abbrev pub not_ready_retry : LibError → ReadCtx Family → Bool
  not_ready_retry err c = sense_key_of scsi err == scsi.not_ready && ltb c.not_ready_retries 3

  module _ {ℓ} (P : ReadAction × ReadCtx Family → Type ℓ) (err : LibError)
      (c : ReadCtx Family) where
    pub classify_cases :
        (err.is_scsi_transport_failure ≡ true → P (abort_pass, c))
        → (err.is_scsi_transport_failure ≡ false → err.is_unit_attention ≡ true → P (abort_pass, c))
        → (err.is_scsi_transport_failure ≡ false
            → err.is_unit_attention ≡ false
            → bridge_retry err c ≡ true
            → P (retry 15, record c { bridge_degradation_count = c.bridge_degradation_count + 1 }))
        → (err.is_scsi_transport_failure ≡ false
            → err.is_unit_attention ≡ false
            → bridge_retry err c ≡ false
            → not_ready_retry err c ≡ true
            → P (retry 3, record c { not_ready_retries = c.not_ready_retries + 1 }))
        → (err.is_scsi_transport_failure ≡ false
            → err.is_unit_attention ≡ false
            → bridge_retry err c ≡ false
            → not_ready_retry err c ≡ false
            → P (damage_response scsi err (record c { not_ready_retries = 0 })))
        → P (classify scsi err c)
    unfolding classify damage_response
    classify_cases transport attention bridge not_ready damage =
        elim (Bool-cases err.is_scsi_transport_failure) [
          | inl t ↦ rw t (transport t)
          | inr t ↦ rw t (elim (Bool-cases err.is_unit_attention) [
            | inl a ↦ rw a (attention t a)
            | inr a ↦ rw a (elim (Bool-cases (bridge_retry err c)) [
              | inl b ↦ rw b (bridge t a b)
              | inr b ↦ rw b (elim (Bool-cases (not_ready_retry err c)) [
                | inl n ↦ rw n (not_ready t a b n)
                | inr n ↦ rw n (damage t a b n)
              ])
            ])
          ])
        ]
