-- ===== src/Section/Exact/Chained.antt =====
-- The handler chain of src/recovery/section_recover.rs: it ends, and its still-bad set is exact.
use freemkv_engine.Base.{
  ℕ, ◌+◌, ◌≡◌, refl, sym, ◌∙◌, subst, true, false, not, ◌&&◌, List, [], ◌∷◌, arith, if◌then◌else◌,
  if_split, ap,
}
use freemkv_engine.Ranges.{covered_by}
use freemkv_engine.SubRanges.{SubRanges, contains, is_empty}
use freemkv_engine.SubRanges.Removed.{IsWell, IsWell-IsWhole, IsWell-IsFree}
use freemkv_engine.Section.State.{
  HandlerOutcome, complete, remaining, halted, transport_fault, fatal, Surroundings, Run, Exit,
  value, returned, exhausted, M,
}
use freemkv_engine.Section.Read.{set_speed, advance}
use freemkv_engine.Section.Chain.{
  Handler, linear, bisect, jump, speed_sweep, cache_prime, oscillate, recover, run_handlers,
  fresh_streak, settle_speed, after_handler,
}
use freemkv_engine.Section.Exact.{IsKept, IsSettled, Holds, Ensures, is_set}
use freemkv_engine.Section.Exact.Batches.{linear_rule, jump_rule}
use freemkv_engine.Section.Exact.Islands.{bisect_rule}
use freemkv_engine.Section.Exact.Singles.{speed_sweep_rule, cache_prime_rule, oscillate_rule}

recover_rule :
    (section start : SubRanges) (h : Handler) (env : Surroundings) (deadline : ℕ)
    → IsWell 0 start
    → Ensures (IsKept section start) (λ _. ⊥) (recover h env deadline start)
unfolding recover
recover_rule section start (linear d p) env deadline w =
    linear_rule section start env p deadline d start (IsWell-IsWhole 0 start w)
recover_rule section start (bisect p) env deadline w =
    bisect_rule section start env p deadline start (IsWell-IsWhole 0 start w)
recover_rule section start (jump p) env deadline w =
    jump_rule section start env p deadline start (IsWell-IsWhole 0 start w)
recover_rule section start (speed_sweep p) env deadline w =
    speed_sweep_rule section start env p deadline start (IsWell-IsWhole 0 start w)
recover_rule section start (cache_prime p) env deadline w =
    cache_prime_rule section start env p deadline (IsWell-IsFree start w)
recover_rule section start (oscillate p) env deadline w =
    oscillate_rule section start env p deadline start (IsWell-IsWhole 0 start w)

-- Between two handlers: exactness against the section, and the drive at its maximal speed.
pub record IsBetween (section : SubRanges) (r : Run) : Type 0 where
  pub kept : IsKept section section r
  pub top : r.ctx.cur_speed ≡ 65535

module _ (section : SubRanges) where
  restart :
      (start : SubRanges) (r : Run)
      → IsKept section start r
      → (r' : Run) → r'.bad ≡ r.bad
      → r'.handed ≡ r.handed
      → r'.ctx.cur_speed ≡ r'.spindle
      → IsKept section r'.bad r'
  restart start r k r' b h s = record {
    exact = record {
      well = subst (IsWell 0) (sym b) k.exact.well;
      exact = λ x.
          ap (λ c. contains c x) b
          ∙ (k.exact.exact x ∙ ap (λ l. contains section x && not (covered_by l x)) (sym h));
      within = λ x o. o;
    };
    speed = s;
  }

  whole :
      (start : SubRanges) (r : Run) → IsKept section start r → IsBetween section (set_speed 65535 r)
  whole start r k = record {
    kept = record {
      exact = record {
        well = ground (arith, k.exact.well);
        exact = λ x. ground (arith, k.exact.exact x);
        within = λ x o. ground (arith, k.exact.exact x);
      };
      speed = ground (arith, k.speed);
    };
    top = ground arith;
  }

  is_empty-complete : (r : Run) → IsSettled (if is_empty r.bad then complete else remaining) r
  is_empty-complete r = record { emptied = λ h. ground arith; carried = λ h. ground arith }

  set_speed-IsSettled :
      (o : HandlerOutcome) (r : Run) → IsSettled o r → IsSettled o (set_speed 65535 r)
  set_speed-IsSettled o r s = record {
    emptied = λ h. ground (arith, s.emptied h);
    carried = λ h. ground (arith, s.carried h);
  }

  after_handler_rule :
      (start : SubRanges) (e : Exit (Unit {0}) × Run) (rest : M (Unit {0}))
      → Holds (IsKept section start) (λ _. ⊥) e
      → Ensures (IsBetween section) (λ _. ⊥) rest
      → Holds (IsBetween section) (λ _. ⊥) (after_handler (settle_speed e) rest)
  after_handler_rule start (value a, r) rest k f = absurd k.1
  after_handler_rule start (exhausted, r) rest k f = absurd k
  after_handler_rule start (returned remaining, r) rest k f =
      f (set_speed 65535 r) (whole start r k.0)
  after_handler_rule start (returned complete, r) rest k f =
      (whole start r k.0, set_speed-IsSettled complete r k.1)
  after_handler_rule start (returned halted, r) rest k f =
      (whole start r k.0, set_speed-IsSettled halted r k.1)
  after_handler_rule start (returned transport_fault, r) rest k f =
      (whole start r k.0, set_speed-IsSettled transport_fault r k.1)
  after_handler_rule start (returned fatal, r) rest k f =
      (whole start r k.0, set_speed-IsSettled fatal r k.1)

  run_handlers_rule :
      (env : Surroundings) (budget : ℕ) (hs : List Handler)
      → Ensures (IsBetween section) (λ _. ⊥) (run_handlers env budget hs)
  unfolding run_handlers
  run_handlers_rule env budget [] r b = (b, is_empty-complete r)
  run_handlers_rule env budget (h ∷ hs) r b =
      let fresh : Run = fresh_streak (advance 1 r) in
      let after = recover h env (env.clock r.turn + budget) r.bad fresh in
      let rest = run_handlers env budget hs in
      if_split (Holds (IsBetween section) (λ _. ⊥)) (is_empty r.bad) (returned complete, r)
        (after_handler (settle_speed after) rest)
        (λ empty. (b, record { emptied = λ h. empty; carried = λ h. cc }))
        (λ some_left.
          after_handler_rule r.bad after rest
            (recover_rule section r.bad h env (env.clock r.turn + budget) b.kept.exact.well fresh
              (restart section r b.kept fresh refl refl b.kept.speed))
            (run_handlers_rule env budget hs))

-- A section before its chain: well-formed, nothing handed over, the drive at its maximal speed.
pub record IsFresh (r : Run) : Type 0 where
  pub well : IsWell 0 r.bad
  pub unhanded : r.handed ≡ []
  pub top : r.ctx.cur_speed ≡ 65535
  pub spinning : r.spindle ≡ 65535

-- What a chain leaves of a section.
pub record IsChained (section : SubRanges) (o : HandlerOutcome) (r : Run) : Type 0 where
  pub well : IsWell 0 r.bad
  pub exact : (x : ℕ) → contains r.bad x ≡ (contains section x && not (covered_by r.handed x))
  pub recovered : o ≡ complete → (x : ℕ) → contains section x ≡ true → covered_by r.handed x ≡ true
  pub carried : o ≡ fatal → is_set r.ctx.fatal ≡ true
  pub spinning : r.spindle ≡ 65535

empty-contains : (set : SubRanges) (x : ℕ) → is_empty set ≡ true → contains set x ≡ false
unfolding contains
empty-contains [] x h = refl
empty-contains (r ∷ rs) x h = cc

chained :
    (section : SubRanges) (h : Exit (Unit {0}) × Run)
    → Holds (IsBetween section) (λ _. ⊥) h
    → (o : HandlerOutcome) × (h.0 ≡ returned o) × IsChained section o h.1
chained section (value a, r) k = absurd k.1
chained section (exhausted, r) k = absurd k
chained section (returned o, r) k = (
  o,
  refl,
  record {
    well = k.0.kept.exact.well;
    exact = k.0.kept.exact.exact;
    recovered =
        λ h x i. ground (arith, empty-contains r.bad x (k.1.emptied h), k.0.kept.exact.exact x);
    carried = k.1.carried;
    spinning = sym k.0.kept.speed ∙ k.0.top;
  },
)

fresh-IsBetween : (r : Run) → IsFresh r → IsBetween r.bad r
unfolding covered_by
fresh-IsBetween r f = record {
  kept = record {
    exact = record { well = f.well; exact = λ x. rw f.unhanded (ground arith); within = λ x o. o };
    speed = f.top ∙ sym f.spinning;
  };
  top = f.top;
}

-- The chain of any handlers on a well-formed section, whatever the drive, the sink, the clock and
-- the halt token do: it returns an outcome; the bytes still bad are those of the section that the
-- sink was not given, in a well-formed list; with `Complete` the sink was given the whole section,
-- with `Fatal` the context has an error; and the drive is left at its maximal speed.
pub run_handlers-IsChained :
    (env : Surroundings) (budget : ℕ) (handlers : List Handler) (r : Run)
    → IsFresh r
    → (o : HandlerOutcome) × ((run_handlers env budget handlers r).0 ≡ returned o)
      × IsChained r.bad o (run_handlers env budget handlers r).1
run_handlers-IsChained env budget handlers r f =
    chained r.bad (run_handlers env budget handlers r)
      (run_handlers_rule r.bad env budget handlers r (fresh-IsBetween r f))
