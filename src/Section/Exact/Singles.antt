-- ===== src/Section/Exact/Singles.antt =====
-- `SpeedSweep`, `CachePrime` and `Oscillate` of src/recovery/section_recover.rs end, and keep the
-- invariant.
use freemkv_engine.Base.{
  ℕ, zero, suc, ◌+◌, ◌-◌, ◌%◌, ◌<◌, ◌≤◌, ◌≡◌, false, List, [], ◌∷◌, arith, leb, min, All,
  if◌then◌else◌,
}
use freemkv_engine.Ranges.{ByteRange}
use freemkv_engine.SubRanges.{SubRanges, contains}
use freemkv_engine.SubRanges.Removed.{IsFree}
use freemkv_engine.Section.State.{
  SpeedPref, ReadParams, Surroundings, M, pure, ◌>>=◌, ◌>>◌, claim, verdict,
}
use freemkv_engine.Section.Read.{read_span, prime_read, on_hit, check_past, check_timed}
use freemkv_engine.Section.Handlers.{each, read_claim}
use freemkv_engine.Section.Specialists.{
  sweep_speeds, sweep, speed_range, speed_sweep, warm_range, prime_before, cache_prime, prime_claim,
  from_above, oscillate_sector, oscillate_range, oscillate, prime_above_is_in_range,
}
use freemkv_engine.Section.Exact.{IsKept, Ensures, Anything}
use freemkv_engine.Section.Exact.Flow.{then_rule, choice_rule, pure_rule}
use freemkv_engine.Section.Exact.Rules.{
  read_rule, prime_rule, cold_prime_rule, check_past_rule, check_timed_rule, verdict_rule,
  claim_rule,
}
use freemkv_engine.Section.Exact.Batches.{IsWhole, read_claim_rule, each_rule}

module _ (section start : SubRanges) (env : Surroundings) (params : ReadParams) (deadline : ℕ) where
  abbrev Keeps : M (Unit {0}) → Type 0
  Keeps m = Ensures (IsKept section start) Anything m

  nothing_rule : Keeps (pure tt)
  nothing_rule = pure_rule (IsKept section start) Anything tt tt

  -- A piece after the check that stands before it.
  past_then : (m : M (Unit {0})) → Keeps m → Keeps (check_past env deadline >> m)
  past_then m k =
      then_rule (IsKept section start) Anything (check_past env deadline) m
        (check_past_rule section start env deadline) k

  both : (m n : M (Unit {0})) → Keeps m → Keeps n → Keeps (m >> n)
  both m n k l = then_rule (IsKept section start) Anything m n k l

  sweep_speeds_rule :
      (pos : ℕ) (speeds : List SpeedPref) → Keeps (sweep_speeds env params deadline pos speeds)
  unfolding sweep_speeds
  sweep_speeds_rule pos [] = nothing_rule
  sweep_speeds_rule pos (speed ∷ speeds) =
      let rest = sweep_speeds env params deadline pos speeds in
      read_rule section start env (record params { speed = speed }) Anything pos 1 2048
        (claim pos 2048) (check_timed env deadline >> rest) (omega arith)
        (claim_rule section start pos 2048)
        (then_rule (IsKept section start) Anything (check_timed env deadline) rest
          (check_timed_rule section start env deadline) (sweep_speeds_rule pos speeds))

  speed_range_rule :
      (fuel rp rl off : ℕ)
      → rl - off < fuel
      → Keeps (speed_range env params deadline fuel rp rl off)
  unfolding speed_range
  speed_range_rule zero rp rl off f = absurd (omega arith)
  speed_range_rule (suc fuel) rp rl off f =
      let speeds = sweep_speeds env params deadline (rp + off) (sweep env params deadline) in
      let rest = speed_range env params deadline fuel rp rl (off + 2048) in
      choice_rule (IsKept section start) Anything (leb rl off) (pure tt)
        (check_past env deadline >> (speeds >> rest)) (λ _. nothing_rule)
        (λ more. past_then (speeds >> rest) (
          both speeds rest (sweep_speeds_rule (rp + off) (sweep env params deadline))
            (speed_range_rule fuel rp rl (off + 2048) (ground arith))))

  -- The end of a handler that walks its ranges.
  walk_rule :
      (ranges : SubRanges) (body : ℕ → ℕ → M (Unit {0})) (P : ByteRange → Type 0)
      → ((rp rl : ℕ) → P (rp, rl) → Keeps (body rp rl))
      → All P ranges
      → Ensures (IsKept section start) (λ _. ⊥) (each ranges body >> verdict)
  walk_rule ranges body P b w =
      then_rule (IsKept section start) (λ _. ⊥) (each ranges body) verdict
        (each_rule section start env params ranges body P b w) (verdict_rule section start)

  pub speed_sweep_rule :
      (ranges : SubRanges)
      → All IsWhole ranges
      → Ensures (IsKept section start) (λ _. ⊥) (speed_sweep env params deadline ranges)
  unfolding speed_sweep
  speed_sweep_rule ranges w =
      walk_rule ranges (λ rp rl. speed_range env params deadline (suc rl) rp rl 0) IsWhole
        (λ rp rl _. speed_range_rule (suc rl) rp rl 0 (omega arith)) w

  warm_range_rule :
      (fuel rp rl done : ℕ)
      → rl - done < fuel
      → rl % 2048 ≡ 0
      → done % 2048 ≡ 0
      → Keeps (warm_range env params deadline fuel rp rl done)
  unfolding warm_range
  warm_range_rule zero rp rl done f a b = absurd (omega arith)
  warm_range_rule (suc fuel) rp rl done f a b =
      let span = min 65536 (rl - done) in
      let read = read_claim env (rp + done) span params in
      let rest = warm_range env params deadline fuel rp rl (done + span) in
      choice_rule (IsKept section start) Anything (leb rl done) (pure tt)
        (check_past env deadline >> (read >> rest)) (λ _. nothing_rule)
        (λ more. past_then (read >> rest) (
          both read rest
            (read_claim_rule section start env params (rp + done) span (ground arith) (omega arith))
            (warm_range_rule fuel rp rl (done + span) (ground arith) a (ground arith))))

  prime_before_rule :
      (rp : ℕ)
      → (2048 ≤ rp → contains start (rp - 2048) ≡ false)
      → Keeps (prime_before env params deadline rp)
  unfolding prime_before
  prime_before_rule rp free =
      let prime = prime_read env (rp - 2048) params >>= λ hit. on_hit hit (pure tt) (pure tt) in
      choice_rule (IsKept section start) Anything (leb 2048 rp) prime (pure tt)
        (λ far. cold_prime_rule section start env params (rp - 2048) (free (ground arith)))
        (λ _. nothing_rule)

  pub cache_prime_rule :
      All (λ r. (r.1 % 2048 ≡ 0) × IsFree start r) start
      → Ensures (IsKept section start) (λ _. ⊥) (cache_prime env params deadline start)
  unfolding cache_prime
  cache_prime_rule w =
      let warm = λ (rp : ℕ) (rl : ℕ).
        prime_before env params deadline rp >> warm_range env params deadline (suc rl) rp rl 0 in
      walk_rule start (λ rp rl. check_past env deadline >> warm rp rl)
        (λ r. (r.1 % 2048 ≡ 0) × IsFree start r)
        (λ rp rl h. past_then (warm rp rl) (
          both (prime_before env params deadline rp)
            (warm_range env params deadline (suc rl) rp rl 0) (prime_before_rule rp h.1)
            (warm_range_rule (suc rl) rp rl 0 (omega arith) h.0 (omega arith))))
        w

  prime_claim_rule : (pos : ℕ) → Keeps (prime_claim env params deadline pos)
  unfolding prime_claim
  prime_claim_rule pos = prime_rule section start env params pos

  from_above_rule : (pos : ℕ) → Keeps (from_above env params deadline pos)
  unfolding from_above
  from_above_rule pos =
      let prime = prime_claim env params deadline (pos + 2048) in
      let read = read_claim env pos 2048 params in
      choice_rule (IsKept section start) Anything (prime_above_is_in_range pos env.capacity_sectors)
        (check_past env deadline >> (prime >> (check_past env deadline >> read))) (pure tt)
        (λ _. past_then (prime >> (check_past env deadline >> read)) (
          both prime (check_past env deadline >> read) (prime_claim_rule (pos + 2048)) (
            past_then read
              (read_claim_rule section start env params pos 2048 (omega arith) (omega arith)))))
        (λ _. nothing_rule)

  oscillate_sector_rule : (pos : ℕ) → Keeps (oscillate_sector env params deadline pos)
  unfolding oscillate_sector
  oscillate_sector_rule pos =
      let below = prime_claim env params deadline (pos - 2048) in
      let read = read_span env pos 1 params >>= λ hit.
      on_hit hit (claim pos 2048) (from_above env params deadline pos) in
      both (if leb 2048 pos then below else pure tt) (check_past env deadline >> read)
        (choice_rule (IsKept section start) Anything (leb 2048 pos) below (pure tt)
          (λ _. prime_claim_rule (pos - 2048)) (λ _. nothing_rule))
        (past_then read (
          read_rule section start env params Anything pos 1 2048 (claim pos 2048)
            (from_above env params deadline pos) (omega arith) (claim_rule section start pos 2048)
            (from_above_rule pos)))

  oscillate_range_rule :
      (fuel rp rl off : ℕ)
      → rl - off < fuel
      → Keeps (oscillate_range env params deadline fuel rp rl off)
  unfolding oscillate_range
  oscillate_range_rule zero rp rl off f = absurd (omega arith)
  oscillate_range_rule (suc fuel) rp rl off f =
      let one = oscillate_sector env params deadline (rp + off) in
      let rest = oscillate_range env params deadline fuel rp rl (off + 2048) in
      choice_rule (IsKept section start) Anything (leb rl off) (pure tt)
        (check_past env deadline >> (one >> rest)) (λ _. nothing_rule)
        (λ more. past_then (one >> rest) (
          both one rest (oscillate_sector_rule (rp + off))
            (oscillate_range_rule fuel rp rl (off + 2048) (ground arith))))

  pub oscillate_rule :
      (ranges : SubRanges)
      → All IsWhole ranges
      → Ensures (IsKept section start) (λ _. ⊥) (oscillate env params deadline ranges)
  unfolding oscillate
  oscillate_rule ranges w =
      walk_rule ranges (λ rp rl. oscillate_range env params deadline (suc rl) rp rl 0) IsWhole
        (λ rp rl _. oscillate_range_rule (suc rl) rp rl 0 (omega arith)) w
