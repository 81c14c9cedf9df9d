-- ===== src/Section/Read.antt =====
-- One read of src/recovery/section_recover.rs: `read_span_as` with `read_span` and `prime_read`,
-- `require_full_read` of src/recovery/mod.rs, and the checks between reads.
use freemkv_engine.Base.{
  ℕ, ◌+◌, ◌-◌, ◌*◌, ◌%◌, Bool, true, false, not, ◌&&◌, ◌||◌, Option, none, some, ◌∷◌, ltb, leb,
  ◌==◌, if◌then◌else◌, saturating_add_u32,
}
use freemkv_engine.LibError.{LibError, Sense, is_damage_candidate}
use freemkv_engine.SubRanges.{contains}
use freemkv_engine.Section.State.{
  ReadParams, kbs, HandlerOutcome, ReadAnswer, transferred, failed, Surroundings, Run, Exit, value,
  returned, M, sector, unproductive_yield, wedge_abort_streak, wedge_fastfail_ms,
}

-- `ReadHit`.
pub data ReadHit : Type 0 where
  good bad transport fatal : ReadHit

-- `require_full_read`.
abbrev pub require_full_read : LibError → ℕ → ReadAnswer → ReadAnswer
require_full_read underrun requested (transferred n) =
    if n == requested then transferred n else failed underrun
require_full_read underrun requested (failed e) = failed e

abbrev pub with_streak : ℕ → Run → Run
with_streak n r = record r { ctx = record r.ctx { wedge_streak = n } }

abbrev pub with_fatal : LibError → Run → Run
with_fatal e r = record r { ctx = record r.ctx { fatal = some e } }

-- A full read, handed to the sink.
abbrev pub hand_over : Option LibError → ℕ → ℕ → Run → ReadHit × Run
hand_over none pos bytes r = (good, record r { handed = (pos, bytes) ∷ r.handed })
hand_over (some e) pos bytes r = (fatal, with_fatal e r)

abbrev pub sense_is_wedge : Surroundings → Option Sense → Bool
sense_is_wedge env none = false
sense_is_wedge env (some s) = env.is_wedge_family s.sense_key

-- The watch for a wedge: only a wedge sense that comes back fast counts.
unfoldable pub wedge_watch : Bool → Run → ReadHit × Run
wedge_watch counts r =
    let streak = saturating_add_u32 r.ctx.wedge_streak 1 in
    if counts
    then (if leb wedge_abort_streak streak then transport else bad, with_streak streak r)
    else (bad, with_streak 0 r)

-- The arms of the match for an error.
unfoldable pub failed_hit : Surroundings → ℕ → LibError → Run → ReadHit × Run
unfolding wedge_watch
failed_hit env started e r =
    if e.is_scsi_transport_failure
    then (transport, r)
    else if not (is_damage_candidate e.variant)
    then (fatal, with_fatal e r)
    else wedge_watch
        (sense_is_wedge env e.scsi_sense && ltb (env.clock r.turn - started) wedge_fastfail_ms) r

abbrev pub answer_hit : Surroundings → ℕ → ℕ → ℕ → Bool → ReadAnswer → Run → ReadHit × Run
answer_hit env started pos bytes commit (transferred n) r =
    if n == bytes
    then (if commit then hand_over (env.refusal r.turn) pos bytes r else (good, r))
    else (bad, with_streak 0 r)
answer_hit env started pos bytes commit (failed e) r = failed_hit env started e r

-- The dead streak, after the hit.
abbrev pub count_hit : Bool → ReadHit × Run → ReadHit × Run
count_hit commit (good, r) =
    let unproductive = if commit then 0 else r.ctx.unproductive in
    (good, record r { ctx = record r.ctx { unproductive = unproductive; wedge_streak = 0 } })
count_hit commit (bad, r) =
    let unproductive = saturating_add_u32 r.ctx.unproductive 1 in
    (bad, record r { ctx = record r.ctx { unproductive = unproductive } })
count_hit commit (transport, r) = (transport, r)
count_hit commit (fatal, r) = (fatal, r)

-- `SET CD SPEED`, where the speed changes.
abbrev pub set_speed : ℕ → Run → Run
set_speed want r =
    if want == r.ctx.cur_speed
    then r
    else record r { ctx = record r.ctx { cur_speed = want }; spindle = want }

abbrev pub advance : ℕ → Run → Run
advance n r = record r { turn = r.turn + n }

abbrev pub next_turn : ReadHit × Run → ReadHit × Run
next_turn (hit, r) = (hit, advance 1 r)

-- `read_span_as`. The turn of the read gives its start and its answer, the next one what follows.
unfoldable pub read_span_as : Surroundings → ℕ → ℕ → ReadParams → Bool → Run → ReadHit × Run
unfolding failed_hit
read_span_as env pos count params commit r =
    let bytes = count * sector in
    let answer = require_full_read env.underrun bytes (env.read r.turn) in
    let asked = advance 1 (set_speed (kbs params.speed) r) in
    if count == 0 || not (pos % sector == 0)
    then (bad, r)
    else next_turn
        (count_hit commit (answer_hit env (env.clock r.turn) pos bytes commit answer asked))

abbrev pub as_value : ReadHit × Run → Exit ReadHit × Run
as_value (hit, r) = (value hit, r)

-- `read_span` and `prime_read`.
unfoldable pub read_span : Surroundings → ℕ → ℕ → ReadParams → M ReadHit
read_span env pos count params r = as_value (read_span_as env pos count params true r)

unfoldable pub prime_read : Surroundings → ℕ → ReadParams → M ReadHit
prime_read env pos params r = as_value (read_span_as env pos 1 params (contains r.bad pos) r)

-- What the handlers do with a hit: the two that end the chain, else the arms given.
abbrev pub on_hit : {A : Type 0} → ReadHit → M A → M A → M A
on_hit good m n r = m r
on_hit bad m n r = n r
on_hit transport m n r = (returned HandlerOutcome.transport_fault, r)
on_hit fatal m n r = (returned HandlerOutcome.fatal, r)

-- The checks between reads: `halted`, then `past` or `timed_out`.
unfoldable pub stop_check : Surroundings → Bool → ℕ → M (Unit {0})
stop_check env yields deadline r =
    let stalled = leb unproductive_yield r.ctx.unproductive in
    if env.halt r.turn
    then (returned HandlerOutcome.halted, advance 1 r)
    else if (yields && stalled) || leb deadline (env.clock r.turn)
    then (returned HandlerOutcome.remaining, advance 1 r)
    else (value tt, advance 1 r)

unfoldable pub check_past : Surroundings → ℕ → M (Unit {0})
unfolding stop_check
check_past env deadline = stop_check env true deadline

unfoldable pub check_timed : Surroundings → ℕ → M (Unit {0})
unfolding stop_check
check_timed env deadline = stop_check env false deadline
