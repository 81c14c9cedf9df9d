-- ===== src/Producer.antt =====
-- The producer of a sweep: the read loop of `sweep_linked` of src/recovery/mod.rs, with
-- `classify_pass_abort` and `sweep_batch_sectors`.
mod State
pub mod Turns
pub mod Steps
pub mod Actions
pub mod Walks
pub mod Settled
pub mod Untried
unfoldable pub use State.*
use freemkv_engine.Base.{
  ℕ, zero, suc, ◌+◌, ◌-◌, ◌*◌, ◌/◌, ◌%◌, ◌^◌, Bool, true, false, not, ◌&&◌, ◌||◌, Option, none,
  some, List, [], ◌∷◌, ◌++◌, ltb, leb, ◌==◌, if◌then◌else◌, min, max, saturating_add,
  saturating_mul,
}
use freemkv_engine.Ranges.{ByteRange, merge_byte_ranges, intersect, subtract}
use freemkv_engine.Mapfile.Status.{non_tried}
use freemkv_engine.Mapfile.State.{Mapfile, ranges_with, set_scope, clear_scope}
use freemkv_engine.Copy.{map_stats}
use freemkv_engine.LibError.{
  LibError, Variant, disc_read, is_read_fault, is_damage_candidate, is_halted,
}
use freemkv_engine.ReadError.{
  ReadCtx, ReadAction, retry, skip_block, jump_ahead, abort_pass, Scsi, on_success,
  handle_read_error,
}
use freemkv_engine.Section.State.{ReadAnswer, transferred, failed}
use freemkv_engine.Section.Read.{require_full_read}
use freemkv_engine.Sweep.{WorkItem, good, skip_fill, gap_fill, stats_request}
use freemkv_engine.Patch.{snap_to_sectors, SendAnswer, sent, stopped, stalled, buffer}

abbrev pub max_speed : ℕ
max_speed = 65535

abbrev pub sector_bytes : ℕ
sector_bytes = 2048

abbrev pub block_lba : ℕ → ℕ
block_lba pos = pos / sector_bytes % 2 ^ 32

-- The end of a damage-jump.
abbrev pub jump_pos : ℕ → ℕ → ℕ → ℕ → ℕ
jump_pos region_end pos len sectors =
    min (saturating_add (saturating_add pos len) (saturating_mul sectors sector_bytes)) region_end

-- Enough fuel: a turn reads on, or spends one of the eight retries in a row.
abbrev pub region_fuel : ℕ → ℕ
region_fuel size = size * 9 + 8

module _ {Family : Type 0} where
  -- `send`, and what follows where the item is with the consumer.
  abbrev pub hand_off :
      SendAnswer → WorkItem → Producer Family → (Producer Family → Turn Family) → Turn Family
  hand_off sent item p next = next (record p { items = p.items ++ item ∷ [] })
  hand_off stopped item p next = ends halt_requested p
  hand_off (stalled e) item p next = ends (producer_err e) p

  -- `sleep_secs_or_halt` before the next turn.
  abbrev pub pause_then : Bool → ℕ → Producer Family → Turn Family
  pause_then slept pos p = if slept then ends halt_requested p else goes_on pos p

  abbrev pub with_ctx : ReadCtx Family → ℕ → Producer Family → Producer Family
  with_ctx c speed p = record p { read_ctx = c; speed = speed }

  abbrev pub advanced : ℕ → Producer Family → Producer Family
  advanced len p = record p { bytes_done = saturating_add p.bytes_done len }

  abbrev pub recovered : ℕ → Producer Family → Producer Family
  recovered len p =
      advanced len (record p { bytes_good_done = saturating_add p.bytes_good_done len })

  abbrev pub min_speed_in : Bool → Producer Family → Producer Family
  min_speed_in was_in_zone p = record p { speed = if was_in_zone then p.speed else 0 }

  abbrev pub after_turn :
      (ℕ → Producer Family → Ending × Producer Family) → Turn Family → Ending × Producer Family
  after_turn rest (goes_on pos p) = rest pos p
  after_turn rest (ends e p) = (e, p)

  abbrev pub after_region :
      (Producer Family → Ending × Producer Family)
      → Ending × Producer Family
      → Ending × Producer Family
  after_region rest (completed, p) = rest p
  after_region rest (halt_requested, p) = (halt_requested, p)
  after_region rest (stuck, p) = (stuck, p)
  after_region rest (producer_err e, p) = (producer_err e, p)

  module _ (ev : SweepEvents Family) where
    -- `block_bytes` at a position of a region.
    unfoldable pub block_bytes : ℕ → ℕ → ℕ
    block_bytes region_end pos =
        let whole = min (region_end - pos) (ev.batch * sector_bytes) in
        if ltb (pos + whole) region_end
        then ev.unit_block_end (pos / sector_bytes) ((pos + whole) / sector_bytes) * sector_bytes
          - pos
        else whole

    -- A block that was read.
    unfoldable pub on_read : ℕ → ℕ → Producer Family → Turn Family
    on_read pos len p =
        let c = on_success (ev.clock p.turn) p.read_ctx in
        let speed =
          if p.read_ctx.in_damage_zone && not c.in_damage_zone then max_speed else p.speed in
        hand_off (ev.send p.turn) (good pos (buffer (ev.bytes p.turn) len)) (with_ctx c speed p)
          (λ q. goes_on (pos + len) (recovered len q))

    -- The gap of a damage-jump, and the pause after it.
    abbrev pub fill_gap : ℕ → ℕ → ℕ → ℕ → Producer Family → Turn Family
    fill_gap start to pause turn p =
        if ltb 0 (to - start)
        then hand_off (ev.send_gap turn) (gap_fill start (to - start)) p
            (λ q. pause_then (ev.slept turn pause) to (advanced (to - start) q))
        else pause_then (ev.slept turn pause) to p

    -- The match on the action of the read-error policy.
    unfoldable pub act : ReadAction → Bool → LibError → ℕ → ℕ → ℕ → Producer Family → Turn Family
    unfolding classify_pass_abort
    act (retry pause) was_in_zone err region_end pos len p =
        pause_then (ev.slept p.turn pause) pos p
    act (skip_block pause) was_in_zone err region_end pos len p =
        hand_off (ev.send p.turn) (skip_fill pos len) p
          (λ q. pause_then (ev.slept p.turn pause) (pos + len) (advanced len q))
    act (jump_ahead sectors pause) was_in_zone err region_end pos len p =
        hand_off (ev.send p.turn) (skip_fill pos len) p (λ q.
          fill_gap (pos + len) (jump_pos region_end pos len sectors) pause p.turn
            (min_speed_in was_in_zone (advanced len q)))
    act abort_pass was_in_zone err region_end pos len p =
        ends (producer_err (classify_pass_abort ev.anchored err (block_lba pos))) p

    -- A read that failed.
    unfoldable pub on_failure : LibError → ℕ → ℕ → ℕ → Producer Family → Turn Family
    unfolding classify_pass_abort is_damage_candidate handle_read_error
    on_failure err region_end pos len p =
        let (action, c) = handle_read_error ev.scsi (ev.clock p.turn) err p.read_ctx in
        if is_halted err.variant
        then ends halt_requested p
        else if not ev.skip_on_error || not (is_damage_candidate err.variant)
        then ends (producer_err (classify_pass_abort ev.anchored err (block_lba pos))) p
        else act action p.read_ctx.in_damage_zone err region_end pos len (with_ctx c p.speed p)

    abbrev pub on_answer : ReadAnswer → ℕ → ℕ → ℕ → Producer Family → Turn Family
    on_answer (transferred n) region_end pos len p = on_read pos len p
    on_answer (failed err) region_end pos len p = on_failure err region_end pos len p

    -- The end of a turn: a stats request that the pipe takes, then the report.
    abbrev pub end_turn : ℕ → Turn Family → Turn Family
    end_turn turn (goes_on pos p) =
        let items = if ev.asks_stats turn then p.items ++ stats_request ∷ [] else p.items in
        let q = record p { turn = turn + 1; items = items } in
        if ev.cancelled_after turn then ends halt_requested q else goes_on pos q
    end_turn turn (ends e p) = ends e p

    -- One turn of the `while` over a region.
    unfoldable pub read_turn : ℕ → ℕ → Producer Family → Turn Family
    unfolding block_bytes on_read on_failure
    read_turn region_end pos p =
        let len = block_bytes region_end pos in
        let answer =
          ev.read_sectors p.turn (block_lba pos) (len / sector_bytes % 2 ^ 16)
            (not ev.skip_on_error) in
        if ev.cancelled p.turn
        then ends halt_requested p
        else end_turn p.turn
            (on_answer (require_full_read ev.underrun len answer) region_end pos len p)

    -- The `while` over a region.
    unfoldable pub read_region : ℕ → ℕ → ℕ → Producer Family → Ending × Producer Family
    unfolding read_turn
    read_region zero region_end pos p = (if ltb pos region_end then stuck else completed, p)
    read_region (suc fuel) region_end pos p =
        let rest = read_region fuel region_end in
        if ltb pos region_end then after_turn rest (read_turn region_end pos p) else (completed, p)

    -- The loop over the regions.
    unfoldable pub read_regions : List ByteRange → Producer Family → Ending × Producer Family
    unfolding snap_to_sectors read_region
    read_regions [] p = (completed, p)
    read_regions ((pos, size) ∷ regions) p =
        let (start, len) = snap_to_sectors pos size in
        after_region (read_regions regions) (read_region (region_fuel len) (start + len) start p)
