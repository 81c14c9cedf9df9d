-- ===== src/Section/Exact/Islands.antt =====
-- `Bisect` of src/recovery/section_recover.rs ends, and keeps the invariant.
use freemkv_engine.Base.{
  ℕ, zero, suc, ◌+◌, ◌-◌, ◌*◌, ◌/◌, ◌%◌, ◌<◌, ◌≤◌, ◌≡◌, Bool, true, false, List, [], ◌∷◌, arith,
  leb, ltb, ◌==◌, min, max, All, if◌then◌else◌,
}
use freemkv_engine.Ranges.{ByteRange}
use freemkv_engine.SubRanges.{SubRanges}
use freemkv_engine.Section.State.{
  ReadParams, Surroundings, Run, M, pure, ◌>>=◌, ◌>>◌, claim, verdict,
}
use freemkv_engine.Section.Read.{read_span, on_hit, check_past, check_timed}
use freemkv_engine.Section.Handlers.{
  sectors_of, reversed_onto, push_if, expand_forward, expand_backward, expand_fuel, reset_streak,
  island, bisect_loop, stack_fuel, bisect,
}
use freemkv_engine.Section.Exact.{IsKept, Holds, Ensures, Anything}
use freemkv_engine.Section.Exact.Flow.{
  bind_rule, then_rule, choice_rule, pure_rule, weaken_rule, carry_on_rule,
}
use freemkv_engine.Section.Exact.Rules.{
  read_rule, check_past_rule, check_timed_rule, verdict_rule, claim_then_rule, IsPending,
}
use freemkv_engine.Section.Exact.Batches.{IsWhole, reversed_onto-IsWhole}

module _ (section start : SubRanges) (env : Surroundings) (params : ReadParams) (deadline : ℕ) where
  -- The end reached is not before the start, and a whole number of sectors from the end.
  abbrev Forward : ℕ → ℕ → ℕ → Type 0
  Forward end fwd reached = (fwd ≤ reached) × ((end - reached) % 2048 ≡ 0)

  expand_forward_rule :
      (fuel end fwd step : ℕ)
      → (end - fwd) * 65537 + step < fuel
      → (end - fwd) % 2048 ≡ 0
      → step % 2048 ≡ 0
      → 0 < step
      → step ≤ 65536
      → Ensures
          (IsKept section start)
          (Forward end fwd)
          (expand_forward env params deadline fuel end fwd step)
  unfolding expand_forward
  expand_forward_rule zero end fwd step f a b c d = absurd (omega arith)
  expand_forward_rule (suc fuel) end fwd step f a b c d =
      let I = IsKept section start in
      let Q = Forward end fwd in
      let span = min step (end - fwd) in
      let half = max (span / 2048 / 2) 1 * 2048 in
      let rest = λ (fwd' : ℕ) (n : ℕ). expand_forward env params deadline fuel end fwd' n in
      let further = claim fwd span >> rest (fwd + span) 65536 in
      let nearer = if ltb 2048 span then rest fwd half else pure fwd in
      let read = read_span env fwd (sectors_of span) params >>= λ hit. on_hit hit further nearer in
      choice_rule I Q (leb end fwd) (pure fwd) (check_timed env deadline >> read)
        (λ _. pure_rule I Q fwd (omega arith, a))
        (λ more.
          then_rule I Q (check_timed env deadline) read
            (check_timed_rule section start env deadline)
            (read_rule section start env params Q fwd (sectors_of span) span further nearer
              (omega arith)
              (claim_then_rule section start Q fwd span (rest (fwd + span) 65536) (
                weaken_rule I (Forward end (fwd + span)) Q (rest (fwd + span) 65536)
                  (λ reached p. (omega arith, p.1))
                  (expand_forward_rule fuel end (fwd + span) 65536 (ground arith) (ground arith)
                    (omega arith) (omega arith) (omega arith))))
              (choice_rule I Q (ltb 2048 span) (rest fwd half) (pure fwd)
                (λ wide.
                  expand_forward_rule fuel end fwd half (ground arith) a (omega arith) (omega arith)
                    (omega arith))
                (λ narrow. pure_rule I Q fwd (omega arith, a)))))

  abbrev Backward : ℕ → ℕ → ℕ → Type 0
  Backward rp bwd reached = (reached ≤ bwd) × ((reached - rp) % 2048 ≡ 0)

  expand_backward_rule :
      (fuel rp bwd step : ℕ)
      → (bwd - rp) * 65537 + step < fuel
      → (bwd - rp) % 2048 ≡ 0
      → step % 2048 ≡ 0
      → 0 < step
      → step ≤ 65536
      → Ensures
          (IsKept section start)
          (Backward rp bwd)
          (expand_backward env params deadline fuel rp bwd step)
  unfolding expand_backward
  expand_backward_rule zero rp bwd step f a b c d = absurd (omega arith)
  expand_backward_rule (suc fuel) rp bwd step f a b c d =
      let I = IsKept section start in
      let Q = Backward rp bwd in
      let span = min step (bwd - rp) in
      let half = max (span / 2048 / 2) 1 * 2048 in
      let rest = λ (bwd' : ℕ) (n : ℕ). expand_backward env params deadline fuel rp bwd' n in
      let further = claim (bwd - span) span >> rest (bwd - span) 65536 in
      let nearer = if ltb 2048 span then rest bwd half else pure bwd in
      let read =
        read_span env (bwd - span) (sectors_of span) params >>= λ hit. on_hit hit further nearer in
      choice_rule I Q (leb bwd rp) (pure bwd) (check_timed env deadline >> read)
        (λ _. pure_rule I Q bwd (omega arith, a))
        (λ more.
          then_rule I Q (check_timed env deadline) read
            (check_timed_rule section start env deadline)
            (read_rule section start env params Q (bwd - span) (sectors_of span) span further nearer
              (omega arith)
              (claim_then_rule section start Q (bwd - span) span (rest (bwd - span) 65536) (
                weaken_rule I (Backward rp (bwd - span)) Q (rest (bwd - span) 65536)
                  (λ reached p. (omega arith, p.1))
                  (expand_backward_rule fuel rp (bwd - span) 65536 (ground arith) (ground arith)
                    (omega arith) (omega arith) (omega arith))))
              (choice_rule I Q (ltb 2048 span) (rest bwd half) (pure bwd)
                (λ wide.
                  expand_backward_rule fuel rp bwd half (ground arith) a (omega arith) (omega arith)
                    (omega arith))
                (λ narrow. pure_rule I Q bwd (omega arith, a)))))

  -- Both ends of the island around a middle sector.
  abbrev Reached : ℕ → ℕ → ℕ → ℕ × ℕ → Type 0
  Reached rp end mid (fwd, bwd) = Forward end (mid + 2048) fwd × Backward rp mid bwd

  reset_streak_rule : Ensures (IsKept section start) Anything (reset_streak env params deadline)
  reset_streak_rule r k = (record { exact = k.exact; speed = k.speed }, tt)

  island_rule :
      (rp end mid : ℕ)
      → (end - (mid + 2048)) % 2048 ≡ 0
      → (mid - rp) % 2048 ≡ 0
      → (r : Run) → IsPending section start mid 2048 r
      → Holds (IsKept section start) (Reached rp end mid) (island env params deadline rp end mid r)
  unfolding island
  island_rule rp end mid a b =
      let I = IsKept section start in
      let Q = Reached rp end mid in
      let ahead =
        expand_forward env params deadline (expand_fuel env params deadline (end - (mid + 2048)))
          end (mid + 2048) 65536 in
      let behind =
        expand_backward env params deadline (expand_fuel env params deadline (mid - rp)) rp mid
          65536 in
      let reset = reset_streak env params deadline in
      let finish : ℕ → ℕ → M (ℕ × ℕ) = λ fwd bwd. reset >> pure (fwd, bwd) in
      let rest : ℕ → M (ℕ × ℕ) = λ fwd. behind >>= finish fwd in
      claim_then_rule section start Q mid 2048 (ahead >>= rest) (
        bind_rule I (Forward end (mid + 2048)) Q ahead rest
          (expand_forward_rule (expand_fuel env params deadline (end - (mid + 2048))) end
            (mid + 2048) 65536 (omega arith) a (omega arith) (omega arith) (omega arith))
          (λ fwd p.
            bind_rule I (Backward rp mid) Q behind (finish fwd)
              (expand_backward_rule (expand_fuel env params deadline (mid - rp)) rp mid 65536
                (omega arith) b (omega arith) (omega arith) (omega arith))
              (λ bwd q.
                then_rule I Q reset (pure (fwd, bwd)) reset_streak_rule
                  (pure_rule I Q (fwd, bwd) (p, q)))))

  stack_fuel_pos : (stack : List ByteRange) → 1 ≤ stack_fuel env params deadline stack
  stack_fuel_pos [] = omega arith
  stack_fuel_pos (r ∷ rs) = omega arith

  pushed_fuel :
      (b : Bool) (p n : ℕ) (stack : List ByteRange)
      → stack_fuel env params deadline (push_if b (p, n) stack)
        ≤ 2 * n + 1 + stack_fuel env params deadline stack
  pushed_fuel true p n stack = omega arith
  pushed_fuel false p n stack = omega arith

  push_if-IsWhole :
      (b : Bool) (p n : ℕ) (stack : List ByteRange)
      → n % 2048 ≡ 0
      → All IsWhole stack
      → All IsWhole (push_if b (p, n) stack)
  push_if-IsWhole true p n stack h w = (h, w)
  push_if-IsWhole false p n stack h w = w

  bisect_loop_rule :
      (fuel : ℕ) (stack : List ByteRange)
      → stack_fuel env params deadline stack ≤ fuel
      → All IsWhole stack
      → Ensures (IsKept section start) Anything (bisect_loop env params deadline fuel stack)
  unfolding bisect_loop
  bisect_loop_rule zero stack f w = absurd (omega (arith, stack_fuel_pos stack))
  bisect_loop_rule (suc fuel) [] f w = pure_rule (IsKept section start) Anything tt tt
  bisect_loop_rule (suc fuel) ((rp, rl) ∷ stack) f w =
      let I = IsKept section start in
      let end = rp + rl in
      let mid = rp + rl / 2048 / 2 * 2048 in
      let right = mid + 2048 in
      let loop = λ (s : List ByteRange). bisect_loop env params deadline fuel s in
      let ends = λ (reached : ℕ × ℕ).
        push_if (ltb reached.0 end) (reached.0, end - reached.0)
          (push_if (ltb rp reached.1) (rp, reached.1 - rp) stack) in
      let left = push_if (ltb rp mid) (rp, mid - rp) stack in
      let halves = push_if (ltb right end) (right, end - right) left in
      let found = island env params deadline rp end mid in
      let good = found >>= λ reached. loop (ends reached) in
      let probe = read_span env mid 1 params >>= λ hit. on_hit hit good (loop halves) in
      choice_rule I Anything (rl == 0) (loop stack) (check_past env deadline >> probe)
        (λ _. bisect_loop_rule fuel stack (omega arith) w.1)
        (λ some_left.
          let whole : 2048 ≤ rl = ground arith in
          then_rule I Anything (check_past env deadline) probe
            (check_past_rule section start env deadline)
            (read_rule section start env params Anything mid 1 2048 good (loop halves) (omega arith)
              (λ r p.
                carry_on_rule I (Reached rp end mid) Anything (found r)
                  (λ reached. loop (ends reached))
                  (island_rule rp end mid (ground arith) (ground arith) r p)
                  (λ reached q.
                    bisect_loop_rule fuel (ends reached)
                      (omega (
                        arith,
                        pushed_fuel (ltb reached.0 end) reached.0 (end - reached.0)
                            (push_if (ltb rp reached.1) (rp, reached.1 - rp) stack),
                        pushed_fuel (ltb rp reached.1) rp (reached.1 - rp) stack,
                        whole,
                      ))
                      (push_if-IsWhole (ltb reached.0 end) reached.0 (end - reached.0)
                        (push_if (ltb rp reached.1) (rp, reached.1 - rp) stack) q.0.1
                        (push_if-IsWhole (ltb rp reached.1) rp (reached.1 - rp) stack q.1.1 w.1))))
              (bisect_loop_rule fuel halves
                (omega (
                  arith,
                  pushed_fuel (ltb right end) right (end - right) left,
                  pushed_fuel (ltb rp mid) rp (mid - rp) stack,
                  whole,
                ))
                (push_if-IsWhole (ltb right end) right (end - right) left (omega arith)
                  (push_if-IsWhole (ltb rp mid) rp (mid - rp) stack (omega arith) w.1)))))

  pub bisect_rule :
      (ranges : SubRanges)
      → All IsWhole ranges
      → Ensures (IsKept section start) (λ _. ⊥) (bisect env params deadline ranges)
  unfolding bisect
  bisect_rule ranges w =
      let stack = reversed_onto ranges [] in
      let fuel = stack_fuel env params deadline stack in
      then_rule (IsKept section start) (λ _. ⊥) (bisect_loop env params deadline fuel stack) verdict
        (bisect_loop_rule fuel stack (omega arith) (reversed_onto-IsWhole ranges [] w tt))
        (verdict_rule section start)
