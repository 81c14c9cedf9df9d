-- ===== src/Section/Exact/Batches.antt =====
-- `Linear` and `Jump` of src/recovery/section_recover.rs end, and keep the invariant.
use freemkv_engine.Base.{
  ℕ, zero, suc, ◌+◌, ◌-◌, ◌*◌, ◌/◌, ◌%◌, ◌<◌, ◌≤◌, ◌≡◌, Bool, true, false, List, [], ◌∷◌, arith,
  leb, min, max, All, if◌then◌else◌,
}
use freemkv_engine.Ranges.{ByteRange}
use freemkv_engine.SubRanges.{SubRanges}
use freemkv_engine.Section.State.{
  ReadParams, Direction, is_reverse, Surroundings, M, pure, ◌>>=◌, ◌>>◌, claim, verdict,
}
use freemkv_engine.Section.Read.{read_span, on_hit, check_past}
use freemkv_engine.Section.Handlers.{
  sectors_of, read_claim, each, reversed_onto, linear_range, linear, jump_range, jump,
}
use freemkv_engine.Section.Exact.{IsKept, Ensures, Anything}
use freemkv_engine.Section.Exact.Flow.{then_rule, choice_rule, pure_rule}
use freemkv_engine.Section.Exact.Rules.{
  read_rule, check_past_rule, verdict_rule, claim_rule, claim_then_rule,
}

-- A range of whole sectors.
abbrev pub IsWhole : ByteRange → Type 0
IsWhole (p, n) = n % 2048 ≡ 0

pub reversed_onto-IsWhole :
    (rs out : List ByteRange)
    → All IsWhole rs
    → All IsWhole out
    → All IsWhole (reversed_onto rs out)
reversed_onto-IsWhole [] out w v = v
reversed_onto-IsWhole (r ∷ rs) out w v = reversed_onto-IsWhole rs (r ∷ out) w.1 (w.0, v)

module _ (section start : SubRanges) (env : Surroundings) (params : ReadParams) where
  pub read_claim_rule :
      (pos span : ℕ)
      → span % 2048 ≡ 0
      → span ≤ 65536
      → Ensures (IsKept section start) Anything (read_claim env pos span params)
  read_claim_rule pos span a b =
      read_rule section start env params Anything pos (sectors_of span) span (claim pos span)
        (pure tt) (omega arith) (claim_rule section start pos span)
        (pure_rule (IsKept section start) Anything tt tt)

  -- A loop over ranges of whole sectors.
  pub each_rule :
      (rs : List ByteRange) (body : ℕ → ℕ → M (Unit {0})) (P : ByteRange → Type 0)
      → ((rp rl : ℕ) → P (rp, rl) → Ensures (IsKept section start) Anything (body rp rl))
      → All P rs
      → Ensures (IsKept section start) Anything (each rs body)
  each_rule [] body P b w = pure_rule (IsKept section start) Anything tt tt
  each_rule ((rp, rl) ∷ rs) body P b w =
      then_rule (IsKept section start) Anything (body rp rl) (each rs body) (b rp rl w.0)
        (each_rule rs body P b w.1)

  module _ (deadline : ℕ) where
    linear_range_rule :
        (rev : Bool) (fuel rp rl done : ℕ)
        → rl - done < fuel
        → rl % 2048 ≡ 0
        → done % 2048 ≡ 0
        → Ensures
            (IsKept section start)
            Anything
            (linear_range env params deadline rev fuel rp rl done)
    unfolding linear_range
    linear_range_rule rev zero rp rl done f a b = absurd (omega arith)
    linear_range_rule rev (suc fuel) rp rl done f a b =
        let I = IsKept section start in
        let span = min 65536 (rl - done) in
        let pos = if rev then rp + (rl - done - span) else rp + done in
        let rest = linear_range env params deadline rev fuel rp rl (done + span) in
        let read = read_claim env pos span params in
        choice_rule I Anything (leb rl done) (pure tt) (check_past env deadline >> (read >> rest))
          (λ _. pure_rule I Anything tt tt)
          (λ more.
            then_rule I Anything (check_past env deadline) (read >> rest)
              (check_past_rule section start env deadline)
              (then_rule I Anything read rest
                (read_claim_rule pos span (ground arith) (omega arith))
                (linear_range_rule rev fuel rp rl (done + span) (ground arith) a (ground arith))))

    pub linear_rule :
        (direction : Direction) (ranges : SubRanges)
        → All IsWhole ranges
        → Ensures (IsKept section start) (λ _. ⊥) (linear env params deadline direction ranges)
    unfolding linear
    linear_rule direction ranges w =
        let rev = is_reverse direction in
        let snapshot = if rev then reversed_onto ranges [] else ranges in
        let body = λ (rp : ℕ) (rl : ℕ). linear_range env params deadline rev (suc rl) rp rl 0 in
        then_rule (IsKept section start) (λ _. ⊥) (each snapshot body) verdict
          (each_rule snapshot body IsWhole
            (λ rp rl a. linear_range_rule rev (suc rl) rp rl 0 (omega arith) a (omega arith))
            (elim rev as (λ b. All IsWhole (if b then reversed_onto ranges [] else ranges)) [
              | true ↦ reversed_onto-IsWhole ranges [] w tt
              | false ↦ w
            ]))
          (verdict_rule section start)

    jump_range_rule :
        (fuel rp rl off fails : ℕ)
        → rl - off < fuel
        → rl % 2048 ≡ 0
        → off % 2048 ≡ 0
        → Ensures
            (IsKept section start)
            Anything
            (jump_range env params deadline fuel rp rl off fails)
    unfolding jump_range
    jump_range_rule zero rp rl off fails f a b = absurd (omega arith)
    jump_range_rule (suc fuel) rp rl off fails f a b =
        let I = IsKept section start in
        let span = min 65536 (rl - off) in
        let leap = max ((rl - off) / 2 / 2048) 1 * 2048 in
        let rest = λ (off' : ℕ) (n : ℕ). jump_range env params deadline fuel rp rl off' n in
        let failed =
          if leb 2 (fails + 1) then rest (off + leap) 0 else rest (off + span) (fails + 1) in
        let good = claim (rp + off) span >> rest (off + span) 0 in
        let read =
          read_span env (rp + off) (sectors_of span) params >>= λ hit. on_hit hit good failed in
        choice_rule I Anything (leb rl off) (pure tt) (check_past env deadline >> read)
          (λ _. pure_rule I Anything tt tt)
          (λ more.
            let forward : (n : ℕ) → Ensures I Anything (rest (off + span) n) =
              λ n. jump_range_rule fuel rp rl (off + span) n (ground arith) a (ground arith) in
            then_rule I Anything (check_past env deadline) read
              (check_past_rule section start env deadline)
              (read_rule section start env params Anything (rp + off) (sectors_of span) span good
                failed (ground arith)
                (claim_then_rule section start Anything (rp + off) span (rest (off + span) 0)
                  (forward 0))
                (choice_rule I Anything (leb 2 (fails + 1)) (rest (off + leap) 0)
                  (rest (off + span) (fails + 1))
                  (λ _. jump_range_rule fuel rp rl (off + leap) 0 (ground arith) a (omega arith))
                  (λ _. forward (fails + 1)))))

    pub jump_rule :
        (ranges : SubRanges)
        → All IsWhole ranges
        → Ensures (IsKept section start) (λ _. ⊥) (jump env params deadline ranges)
    unfolding jump
    jump_rule ranges w =
        let body = λ (rp : ℕ) (rl : ℕ). jump_range env params deadline (suc rl) rp rl 0 0 in
        then_rule (IsKept section start) (λ _. ⊥) (each ranges body) verdict
          (each_rule ranges body IsWhole
            (λ rp rl a. jump_range_rule (suc rl) rp rl 0 0 (omega arith) a (omega arith)) w)
          (verdict_rule section start)
