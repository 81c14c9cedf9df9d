-- ===== src/Producer/Steps.antt =====
-- Every turn of a sweep's read loop (`sweep_linked` of src/recovery/mod.rs) reads on or spends a retry.
use freemkv_engine.Base.{
  ℕ, ◌+◌, ◌-◌, ◌*◌, ◌/◌, ◌≤◌, ◌<◌, ◌≡◌, refl, subst, Bool, true, false, not, ◌&&◌, [], ◌∷◌, ◌++◌,
  arith, ltb, if◌then◌else◌, min, if_cases, if_split,
}
use freemkv_engine.LibError.{LibError}
use freemkv_engine.ReadError.{on_success}
use freemkv_engine.ReadError.Retries.{retries_left}
use freemkv_engine.Sweep.{WorkItem, good, gap_fill}
use freemkv_engine.Patch.{SendAnswer, sent, stopped, stalled, buffer}
use freemkv_engine.Patch.Account.{length-buffer}
use freemkv_engine.Producer.{
  SweepEvents, Producer, Ending, completed, halt_requested, stuck, producer_err, Turn, goes_on,
  ends, hand_off, pause_then, with_ctx, advanced, recovered, block_bytes, on_read, fill_gap,
  max_speed,
}
use freemkv_engine.Producer.Turns.{
  IsReader, Fits, IsGrown, same-IsGrown, one-IsGrown, IsGrown-append, IsGrown-Fits,
}

-- An end before that of the regions.
abbrev pub is_early : Ending → Bool
is_early completed = false
is_early stuck = false
is_early halt_requested = true
is_early (producer_err e) = true

sector_after : (pos end : ℕ) → pos / 2048 < end → pos < end * 2048
sector_after pos end h = omega arith

sector_before : (top end : ℕ) → end ≤ top / 2048 → end * 2048 ≤ top
sector_before top end h = omega arith

module _ {Family : Type 0} where
  -- What is left to do: bytes, each of which may take the eight retries, and the retries.
  abbrev pub left : ℕ → ℕ → Producer Family → ℕ
  left region_end pos p = (region_end - pos) * 9 + retries_left p.read_ctx

  abbrev pub IsTurned : ℕ → ℕ → Producer Family → Turn Family → Type 0
  IsTurned region_end pos p (goes_on q p') =
      IsGrown pos q p p' × (q ≤ region_end) × (left region_end q p' < left region_end pos p)
  IsTurned region_end pos p (ends e p') =
      (is_early e ≡ true) × ((q : ℕ) × IsGrown pos q p p' × (q ≤ region_end))

  pub hand_off_cases {ℓ} :
      (P : Turn Family → Type ℓ) (answer : SendAnswer) (item : WorkItem) (p : Producer Family)
      (next : Producer Family → Turn Family)
      → P (next (record p { items = p.items ++ item ∷ [] }))
      → P (ends halt_requested p)
      → ((e : LibError) → P (ends (producer_err e) p))
      → P (hand_off answer item p next)
  hand_off_cases P sent item p next went stop fails = went
  hand_off_cases P stopped item p next went stop fails = stop
  hand_off_cases P (stalled e) item p next went stop fails = fails e

  -- A state that is reached within the region may end the loop early.
  pub early-IsTurned :
      (region_end pos q : ℕ) (p p' : Producer Family) (e : Ending)
      → is_early e ≡ true
      → IsGrown pos q p p'
      → q ≤ region_end
      → IsTurned region_end pos p (ends e p')
  early-IsTurned region_end pos q p p' e h g b = (h, (q, g, b))

  -- One that read on may pause and go on.
  pub pause_then-IsTurned :
      (slept : Bool) (region_end pos q : ℕ) (p p' : Producer Family)
      → IsGrown pos q p p'
      → q ≤ region_end
      → left region_end q p' < left region_end pos p
      → IsTurned region_end pos p (pause_then slept q p')
  pause_then-IsTurned slept region_end pos q p p' g b l =
      if_cases (IsTurned region_end pos p) slept (ends halt_requested p') (goes_on q p')
        (early-IsTurned region_end pos q p p' halt_requested refl g b) (g, b, l)

  pub read_on :
      (region_end pos q : ℕ) (p p' : Producer Family)
      → pos < q
      → q ≤ region_end
      → left region_end q p' < left region_end pos p
  read_on region_end pos q p p' h b = omega arith

  module _ (ev : SweepEvents Family) (r : IsReader ev) where
    pub block_bytes-le :
        (region_end pos : ℕ)
        → pos < region_end
        → (0 < block_bytes ev region_end pos) × (pos + block_bytes ev region_end pos ≤ region_end)
    unfolding block_bytes
    block_bytes-le region_end pos h =
        let whole : ℕ = min (region_end - pos) (ev.batch * 2048) in
        let last : ℕ = ev.unit_block_end (pos / 2048) ((pos + whole) / 2048) in
        if_split (λ (b : ℕ). (0 < b) × (pos + b ≤ region_end)) (ltb (pos + whole) region_end)
          (last * 2048 - pos) whole
          (λ inner.
            let back =
              r.moves_back (pos / 2048) ((pos + whole) / 2048) (ground (arith, r.batch_positive)) in
            ground (arith, sector_after pos last back.0, sector_before (pos + whole) last back.1))
          (λ _. ground (arith, r.batch_positive))

    pub on_read-IsTurned :
        (region_end pos len : ℕ) (p : Producer Family)
        → Fits p
        → 0 < len
        → pos + len ≤ region_end
        → IsTurned region_end pos p (on_read ev pos len p)
    unfolding on_read
    on_read-IsTurned region_end pos len p f h b =
        let c = on_success (ev.clock p.turn) p.read_ctx in
        let speed =
          if p.read_ctx.in_damage_zone && not c.in_damage_zone then max_speed else p.speed in
        let q : Producer Family = with_ctx c speed p in
        let buf = buffer (ev.bytes p.turn) len in
        let same = same-IsGrown pos p q f refl refl refl in
        hand_off_cases (IsTurned region_end pos p) (ev.send p.turn) (good pos buf) q
          (λ q. goes_on (pos + len) (recovered len q))
          (
            one-IsGrown pos (pos + len) (good pos buf) p
                (recovered len (record q { items = p.items ++ good pos buf ∷ [] })) f (ground arith)
                (omega (arith, length-buffer (ev.bytes p.turn) len)) refl
                (omega (arith, length-buffer (ev.bytes p.turn) len))
                (omega (arith, length-buffer (ev.bytes p.turn) len)),
            b,
            read_on region_end pos (pos + len) p
                (recovered len (record q { items = p.items ++ good pos buf ∷ [] })) (omega arith) b,
          )
          (early-IsTurned region_end pos pos p q halt_requested refl same (omega arith))
          (λ e. early-IsTurned region_end pos pos p q (producer_err e) refl same (omega arith))

    pub fill_gap-IsTurned :
        (region_end pos start to pause turn : ℕ) (p p' : Producer Family)
        → Fits p
        → IsGrown pos start p p'
        → pos < start
        → start ≤ to
        → to ≤ region_end
        → IsTurned region_end pos p (fill_gap ev start to pause turn p')
    fill_gap-IsTurned region_end pos start to pause turn p p' f g h i b =
        let gap : WorkItem = gap_fill start (to - start) in
        let q : Producer Family =
          advanced (to - start) (record p' { items = p'.items ++ gap ∷ [] }) in
        let whole = IsGrown-append pos start to p p' q g (
          one-IsGrown start to gap p' q (IsGrown-Fits pos start p p' g) (ground arith) (omega arith)
            refl (omega arith) (omega (arith, (IsGrown-Fits pos start p p' g).good))) in
        if_split (IsTurned region_end pos p) (ltb 0 (to - start))
          (hand_off (ev.send_gap turn) gap p'
            (λ q. pause_then (ev.slept turn pause) to (advanced (to - start) q)))
          (pause_then (ev.slept turn pause) to p')
          (λ _.
            hand_off_cases (IsTurned region_end pos p) (ev.send_gap turn) gap p'
              (λ q. pause_then (ev.slept turn pause) to (advanced (to - start) q))
              (pause_then-IsTurned (ev.slept turn pause) region_end pos to p q whole b
                (read_on region_end pos to p q (omega arith) b))
              (early-IsTurned region_end pos start p p' halt_requested refl g (omega arith))
              (λ e. early-IsTurned region_end pos start p p' (producer_err e) refl g (omega arith)))
          (λ none_left.
            subst (λ n. IsTurned region_end pos p (pause_then (ev.slept turn pause) n p'))
              (ground arith)
              (pause_then-IsTurned (ev.slept turn pause) region_end pos start p p' g (omega arith)
                (read_on region_end pos start p p' h (omega arith))))
