-- ===== src/Section/Specialists.antt =====
-- The single-sector handlers of src/recovery/section_recover.rs: `SpeedSweep`, `CachePrime` and
-- `Oscillate`.
use freemkv_engine.Base.{
  ℕ, zero, suc, ◌+◌, ◌-◌, ◌/◌, Bool, true, List, [], ◌∷◌, ltb, leb, ◌==◌, if◌then◌else◌, min,
}
use freemkv_engine.SubRanges.{SubRanges}
use freemkv_engine.Section.State.{
  SpeedPref, ReadParams, Surroundings, M, pure, ◌>>=◌, ◌>>◌, claim, verdict, sector,
}
use freemkv_engine.Section.Read.{read_span, prime_read, on_hit, check_past, check_timed}
use freemkv_engine.Section.Handlers.{out_of_fuel, read_claim, each, batch_bytes}

-- `prime_above_is_in_range`.
unfoldable pub prime_above_is_in_range : ℕ → ℕ → Bool
prime_above_is_in_range pos capacity =
    if capacity == 0 then true else ltb (pos / sector + 1) capacity

module _ (env : Surroundings) (params : ReadParams) (deadline : ℕ) where
  -- `SpeedSweep`: the speeds that are left for one sector.
  unfoldable pub sweep_speeds : ℕ → List SpeedPref → M (Unit {0})
  sweep_speeds pos [] = pure tt
  sweep_speeds pos (speed ∷ speeds) =
      let next = check_timed env deadline >> sweep_speeds pos speeds in
      read_span env pos 1 (record params { speed = speed }) >>= λ hit.
      on_hit hit (claim pos sector) next

  abbrev pub sweep : List SpeedPref
  sweep = SpeedPref.max ∷ SpeedPref.min ∷ []

  unfoldable pub speed_range : ℕ → ℕ → ℕ → ℕ → M (Unit {0})
  speed_range zero rp rl off = out_of_fuel
  speed_range (suc fuel) rp rl off =
      let step =
        check_past env deadline
        >> (sweep_speeds (rp + off) sweep >> speed_range fuel rp rl (off + sector)) in
      if leb rl off then pure tt else step

  unfoldable pub speed_sweep : SubRanges → M (Unit {0})
  speed_sweep ranges = each ranges (λ rp rl. speed_range (suc rl) rp rl 0) >> verdict

  -- `CachePrime`: the walk of one island.
  unfoldable pub warm_range : ℕ → ℕ → ℕ → ℕ → M (Unit {0})
  warm_range zero rp rl done = out_of_fuel
  warm_range (suc fuel) rp rl done =
      let span = min batch_bytes (rl - done) in
      let step =
        check_past env deadline
        >> (read_claim env (rp + done) span params >> warm_range fuel rp rl (done + span)) in
      if leb rl done then pure tt else step

  -- The prime of an island, whose success is not claimed.
  unfoldable pub prime_before : ℕ → M (Unit {0})
  prime_before rp =
      if leb sector rp
      then (prime_read env (rp - sector) params >>= λ hit. on_hit hit (pure tt) (pure tt))
      else pure tt

  unfoldable pub cache_prime : SubRanges → M (Unit {0})
  cache_prime ranges =
      each ranges
        (λ rp rl. check_past env deadline >> (prime_before rp >> warm_range (suc rl) rp rl 0))
      >> verdict

  -- `Oscillate`: a prime that is claimed where it is good.
  unfoldable pub prime_claim : ℕ → M (Unit {0})
  prime_claim pos = prime_read env pos params >>= λ hit. on_hit hit (claim pos sector) (pure tt)

  -- A sector again from above, after a failed read.
  unfoldable pub from_above : ℕ → M (Unit {0})
  unfolding prime_claim
  from_above pos =
      if prime_above_is_in_range pos env.capacity_sectors
      then check_past env deadline
        >> (prime_claim (pos + sector)
            >> (check_past env deadline >> read_claim env pos sector params))
      else pure tt

  unfoldable pub oscillate_sector : ℕ → M (Unit {0})
  unfolding prime_claim from_above
  oscillate_sector pos =
      (if leb sector pos then prime_claim (pos - sector) else pure tt)
      >> (check_past env deadline
          >> (read_span env pos 1 params >>= λ hit. on_hit hit (claim pos sector) (from_above pos)))

  unfoldable pub oscillate_range : ℕ → ℕ → ℕ → ℕ → M (Unit {0})
  oscillate_range zero rp rl off = out_of_fuel
  oscillate_range (suc fuel) rp rl off =
      let step =
        check_past env deadline
        >> (oscillate_sector (rp + off) >> oscillate_range fuel rp rl (off + sector)) in
      if leb rl off then pure tt else step

  unfoldable pub oscillate : SubRanges → M (Unit {0})
  oscillate ranges = each ranges (λ rp rl. oscillate_range (suc rl) rp rl 0) >> verdict
