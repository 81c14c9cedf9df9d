-- ===== src/Section/State.antt =====
-- The types of src/recovery/section_recover.rs, and the state of a handler as a monad that may end
-- early with an outcome.
use freemkv_engine.Base.{ℕ, Bool, true, false, Option, List}
use freemkv_engine.Ranges.{ByteRange}
use freemkv_engine.LibError.{LibError}
use freemkv_engine.SubRanges.{SubRanges, is_empty, remove}

abbrev pub sector : ℕ
sector = 2048

abbrev pub batch_sectors : ℕ
batch_sectors = 32

abbrev pub jump_after_fails : ℕ
jump_after_fails = 2

abbrev pub unproductive_yield : ℕ
unproductive_yield = 4

abbrev pub wedge_abort_streak : ℕ
wedge_abort_streak = 16

abbrev pub wedge_fastfail_ms : ℕ
wedge_fastfail_ms = 500

abbrev pub speed_max_kbs : ℕ
speed_max_kbs = 65535

abbrev pub speed_min_kbs : ℕ
speed_min_kbs = 1385

pub data SpeedPref : Type 0 where
  max min : SpeedPref

-- `SpeedPref::kbs`.
abbrev pub kbs : SpeedPref → ℕ
kbs max = speed_max_kbs
kbs min = speed_min_kbs

pub data TimeoutPref : Type 0 where
  fast deep : TimeoutPref

pub record ReadParams : Type 0 where
  pub speed : SpeedPref
  pub fua : Bool
  pub timeout : TimeoutPref

-- `ReadParams::fast` and `ReadParams::deep`.
abbrev pub fast_params : ReadParams
fast_params = record { speed = max; fua = false; timeout = fast }

abbrev pub deep_params : ReadParams
deep_params = record { speed = max; fua = false; timeout = deep }

pub data HandlerOutcome : Type 0 where
  complete remaining halted transport_fault fatal : HandlerOutcome

pub data Direction : Type 0 where
  forward reverse : Direction

-- `Direction::is_reverse`.
abbrev pub is_reverse : Direction → Bool
is_reverse forward = false
is_reverse reverse = true

-- What the reader answers: the bytes transferred, or an error.
pub data ReadAnswer : Type 0 where
  transferred : ℕ → ReadAnswer
  failed : LibError → ReadAnswer

-- What is outside: the answers of the reader and of the sink (an error, if it refuses a span), the
-- clock in milliseconds and the halt token, each at the turn at which it is asked; the error of an
-- underrun, the wedge family of a sense key, and the reader's capacity.
pub record Surroundings : Type 0 where
  pub read : ℕ → ReadAnswer
  pub refusal : ℕ → Option LibError
  pub clock : ℕ → ℕ
  pub halt : ℕ → Bool
  pub underrun : LibError
  pub is_wedge_family : ℕ → Bool
  pub capacity_sectors : ℕ

-- `HandlerCtx`, less its borrows.
pub record HandlerCtx : Type 0 where
  pub unproductive : ℕ
  pub wedge_streak : ℕ
  pub cur_speed : ℕ
  pub fatal : Option LibError

-- A handler's state: its context and its still-bad set, with the turn of the surroundings, the spans
-- that the sink took, the last first, and the speed that the drive was last set to.
pub record Run : Type 0 where
  pub ctx : HandlerCtx
  pub bad : SubRanges
  pub turn : ℕ
  pub handed : List ByteRange
  pub spindle : ℕ

-- How a piece of a handler ends: with a value, by a return from the handler, or, in a loop of the
-- model, without fuel.
pub data Exit (A : Type 0) : Type 0 where
  value : A → Exit A
  returned : HandlerOutcome → Exit A
  exhausted : Exit A

abbrev pub M : Type 0 → Type 0
M A = Run → Exit A × Run

abbrev pub pure : {A : Type 0} → A → M A
pure a r = (value a, r)

abbrev pub give_back : {A : Type 0} → HandlerOutcome → M A
give_back o r = (returned o, r)

abbrev pub carry_on : {A B : Type 0} → Exit A × Run → (A → M B) → Exit B × Run
carry_on (value a, r) f = f a r
carry_on (returned o, r) f = (returned o, r)
carry_on (exhausted, r) f = (exhausted, r)

infixl 5 ◌>>=◌ ◌>>◌
abbrev pub ◌>>=◌ : {A B : Type 0} → M A → (A → M B) → M B
◌>>=◌ m f r = carry_on (m r) f

abbrev pub ◌>>◌ : {B : Type 0} → M (Unit {0}) → M B → M B
m >> k = m >>= λ _. k

-- `bad.remove`.
unfoldable pub claim : ℕ → ℕ → M (Unit {0})
claim pos len r = (value tt, record r { bad = remove pos len r.bad })

-- The end of every handler.
unfoldable pub verdict : M (Unit {0})
verdict r = (returned (elim (is_empty r.bad) [ true ↦ complete | false ↦ remaining ]), r)
