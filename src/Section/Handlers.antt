-- ===== src/Section/Handlers.antt =====
-- The handlers of src/recovery/section_recover.rs: `Linear`, `Bisect` and `Jump`.
-- A loop takes fuel, of which its caller gives enough.
use freemkv_engine.Base.{
  ℕ, zero, suc, ◌+◌, ◌-◌, ◌*◌, ◌/◌, ◌%◌, Bool, List, [], ◌∷◌, ltb, leb, ◌==◌, if◌then◌else◌, min,
  max,
}
use freemkv_engine.Ranges.{ByteRange}
use freemkv_engine.SubRanges.{SubRanges}
use freemkv_engine.Section.State.{
  ReadParams, Direction, is_reverse, Surroundings, value, exhausted, M, pure, ◌>>=◌, ◌>>◌, claim,
  verdict, batch_sectors, sector, jump_after_fails,
}
use freemkv_engine.Section.Read.{read_span, on_hit, check_past, check_timed}

abbrev pub out_of_fuel : {A : Type 0} → M A
out_of_fuel r = (exhausted, r)

abbrev pub batch_bytes : ℕ
batch_bytes = batch_sectors * sector

-- `(span / SECTOR) as u16`.
abbrev pub sectors_of : ℕ → ℕ
sectors_of span = span / sector % 65536

-- A read of whole sectors, its span claimed where it is good.
abbrev pub read_claim : Surroundings → ℕ → ℕ → ReadParams → M (Unit {0})
read_claim env pos span params =
    read_span env pos (sectors_of span) params >>= λ hit. on_hit hit (claim pos span) (pure tt)

-- The `for` over a snapshot.
abbrev pub each : List ByteRange → (ℕ → ℕ → M (Unit {0})) → M (Unit {0})
each [] body = pure tt
each ((rp, rl) ∷ rs) body = body rp rl >> each rs body

abbrev pub reversed_onto : List ByteRange → List ByteRange → List ByteRange
reversed_onto [] out = out
reversed_onto (r ∷ rs) out = reversed_onto rs (r ∷ out)

abbrev pub push_if : Bool → ByteRange → List ByteRange → List ByteRange
push_if b r stack = if b then r ∷ stack else stack

module _ (env : Surroundings) (params : ReadParams) (deadline : ℕ) where
  -- `Linear`: the loop over one range.
  unfoldable pub linear_range : Bool → ℕ → ℕ → ℕ → ℕ → M (Unit {0})
  linear_range rev zero rp rl done = out_of_fuel
  linear_range rev (suc fuel) rp rl done =
      let span = min batch_bytes (rl - done) in
      let pos = if rev then rp + (rl - done - span) else rp + done in
      let step =
        check_past env deadline
        >> (read_claim env pos span params >> linear_range rev fuel rp rl (done + span)) in
      if leb rl done then pure tt else step

  unfoldable pub linear : Direction → SubRanges → M (Unit {0})
  linear direction ranges =
      let snapshot = if is_reverse direction then reversed_onto ranges [] else ranges in
      each snapshot (λ rp rl. linear_range (is_reverse direction) (suc rl) rp rl 0) >> verdict

  -- `Bisect`: after a failed read the step is halved at the dead boundary.
  abbrev pub halved : ℕ → ℕ
  halved span = max (span / sector / 2) 1 * sector

  unfoldable pub expand_forward : ℕ → ℕ → ℕ → ℕ → M ℕ
  expand_forward zero end fwd step = out_of_fuel
  expand_forward (suc fuel) end fwd step =
      let span = min step (end - fwd) in
      let further = claim fwd span >> expand_forward fuel end (fwd + span) batch_bytes in
      let nearer = expand_forward fuel end fwd (halved span) in
      let read = read_span env fwd (sectors_of span) params >>= λ hit.
      on_hit hit further (if ltb sector span then nearer else pure fwd) in
      if leb end fwd then pure fwd else check_timed env deadline >> read

  unfoldable pub expand_backward : ℕ → ℕ → ℕ → ℕ → M ℕ
  expand_backward zero rp bwd step = out_of_fuel
  expand_backward (suc fuel) rp bwd step =
      let span = min step (bwd - rp) in
      let pos = bwd - span in
      let further = claim pos span >> expand_backward fuel rp pos batch_bytes in
      let nearer = expand_backward fuel rp bwd (halved span) in
      let read = read_span env pos (sectors_of span) params >>= λ hit.
      on_hit hit further (if ltb sector span then nearer else pure bwd) in
      if leb bwd rp then pure bwd else check_timed env deadline >> read

  abbrev pub reset_streak : M (Unit {0})
  reset_streak r = (value tt, record r { ctx = record r.ctx { unproductive = 0 } })

  abbrev pub expand_fuel : ℕ → ℕ
  expand_fuel len = suc (len * 65537 + batch_bytes)

  -- A good middle: its island, as the two ends that were reached.
  unfoldable pub island : ℕ → ℕ → ℕ → M (ℕ × ℕ)
  unfolding expand_forward expand_backward
  island rp end mid = do
    claim mid sector
    fwd ← expand_forward (expand_fuel (end - (mid + sector))) end (mid + sector) batch_bytes
    bwd ← expand_backward (expand_fuel (mid - rp)) rp mid batch_bytes
    reset_streak
    pure (fwd, bwd)

  unfoldable pub bisect_loop : ℕ → List ByteRange → M (Unit {0})
  bisect_loop zero stack = out_of_fuel
  bisect_loop (suc fuel) [] = pure tt
  bisect_loop (suc fuel) ((rp, rl) ∷ stack) =
      let end = rp + rl in
      let mid = rp + rl / sector / 2 * sector in
      let right = mid + sector in
      let ends = λ (reached : ℕ × ℕ).
        push_if (ltb reached.0 end) (reached.0, end - reached.0)
          (push_if (ltb rp reached.1) (rp, reached.1 - rp) stack) in
      let halves =
        push_if (ltb right end) (right, end - right) (push_if (ltb rp mid) (rp, mid - rp) stack) in
      let skip = bisect_loop fuel stack in
      let probe = read_span env mid 1 params >>= λ hit.
      on_hit hit (island rp end mid >>= λ reached. bisect_loop fuel (ends reached))
        (bisect_loop fuel halves) in
      if rl == 0 then skip else check_past env deadline >> probe

  abbrev pub stack_fuel : List ByteRange → ℕ
  stack_fuel [] = 1
  stack_fuel (r ∷ rs) = 2 * r.1 + 1 + stack_fuel rs

  unfoldable pub bisect : SubRanges → M (Unit {0})
  bisect ranges =
      let stack = reversed_onto ranges [] in bisect_loop (stack_fuel stack) stack >> verdict

  -- `Jump`.
  unfoldable pub jump_range : ℕ → ℕ → ℕ → ℕ → ℕ → M (Unit {0})
  jump_range zero rp rl off fails = out_of_fuel
  jump_range (suc fuel) rp rl off fails =
      let span = min batch_bytes (rl - off) in
      let further = claim (rp + off) span >> jump_range fuel rp rl (off + span) 0 in
      let leap = jump_range fuel rp rl (off + max ((rl - off) / 2 / sector) 1 * sector) 0 in
      let next = jump_range fuel rp rl (off + span) (fails + 1) in
      let read = read_span env (rp + off) (sectors_of span) params >>= λ hit.
      on_hit hit further (if leb jump_after_fails (fails + 1) then leap else next) in
      if leb rl off then pure tt else check_past env deadline >> read

  unfoldable pub jump : SubRanges → M (Unit {0})
  jump ranges = each ranges (λ rp rl. jump_range (suc rl) rp rl 0 0) >> verdict
