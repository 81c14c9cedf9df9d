-- ===== src/Section/Exact.antt =====
-- What a handler of src/recovery/section_recover.rs keeps: the still-bad set is what it was less the
-- spans that the sink took.
pub mod Reading
pub mod Flow
pub mod Rules
pub mod Batches
pub mod Islands
pub mod Singles
pub mod Chained
use freemkv_engine.Base.{
  ℕ, ◌+◌, ◌*◌, ◌%◌, ◌<◌, ◌≡◌, refl, Bool, true, false, not, ◌&&◌, ◌||◌, Option, none, some, List,
  [], ◌∷◌, if◌then◌else◌,
}
use freemkv_engine.Ranges.{ByteRange, covered_by}
use freemkv_engine.LibError.{LibError}
use freemkv_engine.SubRanges.{SubRanges, contains, is_empty}
use freemkv_engine.SubRanges.Removed.{IsWell}
use freemkv_engine.Section.State.{
  HandlerOutcome, complete, fatal, Run, Exit, value, returned, exhausted, M,
}

-- The set `section` less the spans, in a well-formed list, and within the set `start`.
pub record IsExact (section start set : SubRanges) (handed : List ByteRange) : Type 0 where
  pub well : IsWell 0 set
  pub exact : (x : ℕ) → contains set x ≡ (contains section x && not (covered_by handed x))
  pub within : (x : ℕ) → contains start x ≡ false → contains set x ≡ false

-- The invariant of a handler: exactness, and the drive at the speed that the context holds.
pub record IsKept (section start : SubRanges) (r : Run) : Type 0 where
  pub exact : IsExact section start r.bad r.handed
  pub speed : r.ctx.cur_speed ≡ r.spindle

abbrev pub is_set : Option LibError → Bool
is_set none = false
is_set (some e) = true

-- An end with `Complete` leaves no bad range, one with `Fatal` leaves its error.
pub record IsSettled (o : HandlerOutcome) (r : Run) : Type 0 where
  pub emptied : o ≡ complete → is_empty r.bad ≡ true
  pub carried : o ≡ fatal → is_set r.ctx.fatal ≡ true

abbrev pub Holds : {A : Type 0} → (Run → Type 0) → (A → Type 0) → Exit A × Run → Type 0
Holds I Q (value a, r) = I r × Q a
Holds I Q (returned o, r) = I r × IsSettled o r
Holds I Q (exhausted, r) = ⊥

-- From a state of the invariant: the piece ends, not for lack of fuel, in a state of the invariant,
-- with a value of the postcondition or a settled outcome.
abbrev pub Ensures : {A : Type 0} → (Run → Type 0) → (A → Type 0) → M A → Type 0
Ensures I Q m = (r : Run) → I r → Holds I Q (m r)

abbrev pub Anything : {A : Type 0} → A → Type 0
Anything a = Unit {0}
