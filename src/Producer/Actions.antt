-- ===== src/Producer/Actions.antt =====
-- What a turn of a sweep's read loop (src/recovery/mod.rs) makes of the drive's answer.
use freemkv_engine.Base.{
  ℕ, ◌+◌, ◌/◌, ◌≤◌, ◌<◌, ◌≡◌, refl, ap, Bool, true, false, not, ◌||◌, ◌^◌, ◌%◌, [], ◌∷◌, ◌++◌,
  arith, if◌then◌else◌, u64_max, if_cases,
}
use freemkv_engine.LibError.{LibError, is_damage_candidate, is_halted}
use freemkv_engine.ReadError.{
  ReadAction, retry, skip_block, jump_ahead, abort_pass, handle_read_error,
}
use freemkv_engine.ReadError.Actions.{is_retry}
use freemkv_engine.ReadError.Retries.{retries_left, handle_read_error-retry}
use freemkv_engine.Section.State.{ReadAnswer, transferred, failed}
use freemkv_engine.Section.Read.{require_full_read}
use freemkv_engine.Sweep.{WorkItem, skip_fill, stats_request}
use freemkv_engine.Producer.{
  SweepEvents, Producer, Ending, halt_requested, producer_err, Turn, goes_on, ends,
  classify_pass_abort, pause_then, with_ctx, advanced, block_bytes, block_lba, jump_pos, fill_gap,
  min_speed_in, act, on_failure, on_answer, end_turn, read_turn,
}
use freemkv_engine.Producer.Turns.{
  IsReader, Fits, IsGrown, same-IsGrown, one-IsGrown, IsGrown-append, IsGrown-Fits,
}
use freemkv_engine.Producer.Steps.{
  IsTurned, hand_off_cases, early-IsTurned, pause_then-IsTurned, read_on, block_bytes-le,
  on_read-IsTurned, fill_gap-IsTurned,
}

module _ {Family : Type 0} where
  module _ (ev : SweepEvents Family) (r : IsReader ev) where
    act-IsTurned :
        (action : ReadAction) (zone : Bool) (err : LibError) (region_end pos len : ℕ)
        (p p' : Producer Family)
        → Fits p
        → p'.items ≡ p.items
        → p'.bytes_done ≡ p.bytes_done
        → p'.bytes_good_done ≡ p.bytes_good_done
        → (is_retry action ≡ true → retries_left p'.read_ctx < retries_left p.read_ctx)
        → 0 < len
        → pos + len ≤ region_end
        → region_end ≤ u64_max
        → IsTurned region_end pos p (act ev action zone err region_end pos len p')
    unfolding act
    act-IsTurned (retry pause) zone err region_end pos len p p' f i d g s h b u =
        pause_then-IsTurned (ev.slept p'.turn pause) region_end pos pos p p'
          (same-IsGrown pos p p' f i d g) (omega arith) (omega (arith, s refl))
    act-IsTurned (skip_block pause) zone err region_end pos len p p' f i d g s h b u =
        let fill : WorkItem = skip_fill pos len in
        let q : Producer Family = advanced len (record p' { items = p'.items ++ fill ∷ [] }) in
        let same = same-IsGrown pos p p' f i d g in
        hand_off_cases (IsTurned region_end pos p) (ev.send p'.turn) fill p'
          (λ q. pause_then (ev.slept p'.turn pause) (pos + len) (advanced len q))
          (pause_then-IsTurned (ev.slept p'.turn pause) region_end pos (pos + len) p q
            (one-IsGrown pos (pos + len) fill p q f (ground arith) refl
              (ap (λ is. is ++ fill ∷ []) i) (omega arith) (omega (arith, f.good)))
            b (read_on region_end pos (pos + len) p q (omega arith) b))
          (early-IsTurned region_end pos pos p p' halt_requested refl same (omega arith))
          (λ e. early-IsTurned region_end pos pos p p' (producer_err e) refl same (omega arith))
    act-IsTurned (jump_ahead sectors pause) zone err region_end pos len p p' f i d g s h b u =
        let fill : WorkItem = skip_fill pos len in
        let q : Producer Family =
          min_speed_in zone (advanced len (record p' { items = p'.items ++ fill ∷ [] })) in
        let same = same-IsGrown pos p p' f i d g in
        hand_off_cases (IsTurned region_end pos p) (ev.send p'.turn) fill p'
          (λ q.
            fill_gap ev (pos + len) (jump_pos region_end pos len sectors) pause p'.turn
              (min_speed_in zone (advanced len q)))
          (fill_gap-IsTurned ev r region_end pos (pos + len) (jump_pos region_end pos len sectors)
            pause p'.turn p q f
            (one-IsGrown pos (pos + len) fill p q f (ground arith) refl
              (ap (λ is. is ++ fill ∷ []) i) (omega arith) (omega (arith, f.good)))
            (omega arith) (omega arith) (omega arith))
          (early-IsTurned region_end pos pos p p' halt_requested refl same (omega arith))
          (λ e. early-IsTurned region_end pos pos p p' (producer_err e) refl same (omega arith))
    act-IsTurned abort_pass zone err region_end pos len p p' f i d g s h b u =
        early-IsTurned region_end pos pos p p'
          (producer_err (classify_pass_abort ev.anchored err (block_lba pos))) refl
          (same-IsGrown pos p p' f i d g) (omega arith)

    on_failure-IsTurned :
        (err : LibError) (region_end pos len : ℕ) (p : Producer Family)
        → Fits p
        → 0 < len
        → pos + len ≤ region_end
        → region_end ≤ u64_max
        → IsTurned region_end pos p (on_failure ev err region_end pos len p)
    unfolding on_failure
    on_failure-IsTurned err region_end pos len p f h b u =
        let answer = handle_read_error ev.scsi (ev.clock p.turn) err p.read_ctx in
        let q : Producer Family = with_ctx answer.1 p.speed p in
        let same = same-IsGrown pos p p f refl refl refl in
        let cause : Ending = producer_err (classify_pass_abort ev.anchored err (block_lba pos)) in
        if_cases (IsTurned region_end pos p) (is_halted err.variant) (ends halt_requested p) _
          (early-IsTurned region_end pos pos p p halt_requested refl same (omega arith))
          (if_cases (IsTurned region_end pos p)
            (not ev.skip_on_error || not (is_damage_candidate err.variant)) (ends cause p)
            (act ev answer.0 p.read_ctx.in_damage_zone err region_end pos len q)
            (early-IsTurned region_end pos pos p p cause refl same (omega arith))
            (act-IsTurned answer.0 p.read_ctx.in_damage_zone err region_end pos len p q f refl refl
              refl (handle_read_error-retry ev.scsi (ev.clock p.turn) err p.read_ctx) h b u))

    on_answer-IsTurned :
        (answer : ReadAnswer) (region_end pos len : ℕ) (p : Producer Family)
        → Fits p
        → 0 < len
        → pos + len ≤ region_end
        → region_end ≤ u64_max
        → IsTurned region_end pos p (on_answer ev answer region_end pos len p)
    on_answer-IsTurned (transferred n) region_end pos len p f h b u =
        on_read-IsTurned ev r region_end pos len p f h b
    on_answer-IsTurned (failed err) region_end pos len p f h b u =
        on_failure-IsTurned err region_end pos len p f h b u

    -- The stats request of a turn has no bytes.
    requested-IsGrown :
        (asks : Bool) (pos q turn : ℕ) (p p' : Producer Family)
        → IsGrown pos q p p'
        → IsGrown pos q p (record p' {
          turn = turn;
          items = if asks then p'.items ++ stats_request ∷ [] else p'.items;
        })
    requested-IsGrown true pos q turn p p' g =
        let p'' : Producer Family = record p' {
          turn = turn;
          items = p'.items ++ stats_request ∷ [];
        } in
        let f = IsGrown-Fits pos q p p' g in
        IsGrown-append pos q q p p' p'' g (
          one-IsGrown q q stats_request p' p'' f refl (omega arith) refl (omega (arith, f.done))
            (omega (arith, f.good)))
    requested-IsGrown false pos q turn p p' g =
        let p'' : Producer Family = record p' { turn = turn } in
        let f = IsGrown-Fits pos q p p' g in
        IsGrown-append pos q q p p' p'' g (same-IsGrown q p' p'' f refl refl refl)

    end_turn-IsTurned :
        (region_end pos turn : ℕ) (p : Producer Family) (t : Turn Family)
        → IsTurned region_end pos p t
        → IsTurned region_end pos p (end_turn ev turn t)
    end_turn-IsTurned region_end pos turn p (goes_on q p') t =
        let items = if ev.asks_stats turn then p'.items ++ stats_request ∷ [] else p'.items in
        let p'' : Producer Family = record p' { turn = turn + 1; items = items } in
        let g = requested-IsGrown (ev.asks_stats turn) pos q (turn + 1) p p' t.0 in
        if_cases (IsTurned region_end pos p) (ev.cancelled_after turn) (ends halt_requested p'')
          (goes_on q p'') (early-IsTurned region_end pos q p p'' halt_requested refl g t.1)
          (g, t.1, t.2)
    end_turn-IsTurned region_end pos turn p (ends e p') t = t

    pub read_turn-IsTurned :
        (region_end pos : ℕ) (p : Producer Family)
        → Fits p
        → pos < region_end
        → region_end ≤ u64_max
        → IsTurned region_end pos p (read_turn ev region_end pos p)
    unfolding read_turn
    read_turn-IsTurned region_end pos p f h u =
        let len = block_bytes ev region_end pos in
        let answer =
          require_full_read ev.underrun len
            (ev.read_sectors p.turn (block_lba pos) (len / 2048 % 2 ^ 16) (not ev.skip_on_error)) in
        let size = block_bytes-le ev r region_end pos h in
        if_cases (IsTurned region_end pos p) (ev.cancelled p.turn) (ends halt_requested p)
          (end_turn ev p.turn (on_answer ev answer region_end pos len p))
          (early-IsTurned region_end pos pos p p halt_requested refl
            (same-IsGrown pos p p f refl refl refl) (omega arith))
          (end_turn-IsTurned region_end pos p.turn p (on_answer ev answer region_end pos len p)
            (on_answer-IsTurned answer region_end pos len p f size.0 size.1 u))
