-- ===== src/Section/Chain.antt =====
-- `run_handlers` of src/recovery/section_recover.rs, and the rosters of `build_tier_handlers` and
-- `build_flat_pool` of src/recovery/patch.rs.
use freemkv_engine.Base.{ℕ, zero, suc, ◌+◌, true, false, List, [], ◌∷◌, ◌++◌, if◌then◌else◌}
use freemkv_engine.SubRanges.{SubRanges, is_empty}
use freemkv_engine.Section.State.{
  SpeedPref, TimeoutPref, ReadParams, fast_params, deep_params, complete, remaining, Direction,
  forward, reverse, Surroundings, Run, Exit, value, returned, exhausted, M, speed_max_kbs,
}
use freemkv_engine.Section.Read.{set_speed, advance}
use freemkv_engine.Section.Handlers
use freemkv_engine.Section.Specialists

-- The handlers as data: a technique with its parameters.
pub data Handler : Type 0 where
  linear : Direction → ReadParams → Handler
  bisect jump speed_sweep cache_prime oscillate : ReadParams → Handler

-- `SectionHandler::recover`.
unfoldable pub recover : Handler → Surroundings → ℕ → SubRanges → M (Unit {0})
recover (linear d p) env deadline ranges = Handlers.linear env p deadline d ranges
recover (bisect p) env deadline ranges = Handlers.bisect env p deadline ranges
recover (jump p) env deadline ranges = Handlers.jump env p deadline ranges
recover (speed_sweep p) env deadline ranges = Specialists.speed_sweep env p deadline ranges
recover (cache_prime p) env deadline ranges = Specialists.cache_prime env p deadline ranges
recover (oscillate p) env deadline ranges = Specialists.oscillate env p deadline ranges

abbrev pub fresh_streak : Run → Run
fresh_streak r = record r { ctx = record r.ctx { unproductive = 0 } }

abbrev pub settle_speed : {A : Type 0} → Exit A × Run → Exit A × Run
settle_speed (e, r) = (e, set_speed speed_max_kbs r)

-- What the chain does with a handler's outcome.
abbrev pub after_handler : Exit (Unit {0}) × Run → M (Unit {0}) → Exit (Unit {0}) × Run
after_handler (returned remaining, r) rest = rest r
after_handler (returned o, r) rest = (returned o, r)
after_handler (value a, r) rest = rest r
after_handler (exhausted, r) rest = (exhausted, r)

-- `run_handlers`, on the handlers in the order that the scoreboard gives them. The deadline is the
-- budget after the clock at the start of the handler.
unfoldable pub run_handlers : Surroundings → ℕ → List Handler → M (Unit {0})
run_handlers env budget [] r = (returned (if is_empty r.bad then complete else remaining), r)
run_handlers env budget (h ∷ hs) r =
    let deadline = env.clock r.turn + budget in
    let after = recover h env deadline r.bad (fresh_streak (advance 1 r)) in
    let rest = after_handler (settle_speed after) (run_handlers env budget hs) in
    if is_empty r.bad then (returned complete, r) else rest

abbrev pub min_deep : ReadParams
min_deep = record { speed = SpeedPref.min; fua = false; timeout = TimeoutPref.deep }

abbrev pub fua_deep : ReadParams
fua_deep = record { speed = SpeedPref.max; fua = true; timeout = TimeoutPref.deep }

abbrev pub slow_fua : ReadParams
slow_fua = record { speed = SpeedPref.min; fua = true; timeout = TimeoutPref.deep }

-- `build_tier_handlers`.
unfoldable pub build_tier_handlers : ℕ → List Handler
build_tier_handlers zero =
    bisect fast_params
    ∷ jump fast_params
    ∷ linear reverse fast_params
    ∷ linear forward fast_params
    ∷ []
build_tier_handlers (suc zero) = linear reverse deep_params ∷ linear forward deep_params ∷ []
build_tier_handlers (suc (suc tier)) =
    linear reverse min_deep
    ∷ linear forward min_deep
    ∷ linear forward fua_deep
    ∷ linear reverse fua_deep
    ∷ bisect fua_deep
    ∷ linear forward slow_fua
    ∷ cache_prime deep_params
    ∷ oscillate deep_params
    ∷ oscillate min_deep
    ∷ speed_sweep deep_params
    ∷ []

abbrev pub patch_tiers : ℕ
patch_tiers = 3

-- `build_flat_pool`, from a tier on.
unfoldable pub pool_from : ℕ → ℕ → List Handler
unfolding build_tier_handlers
pool_from zero tier = []
pool_from (suc left) tier = build_tier_handlers tier ++ pool_from left (tier + 1)

unfoldable pub build_flat_pool : List Handler
unfolding pool_from
build_flat_pool = pool_from patch_tiers 0
