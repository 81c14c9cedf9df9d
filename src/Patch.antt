-- ===== src/Patch.antt =====
-- A patch pass: `PatchCtx` of src/recovery/patch.rs, with `snap_to_sectors` and `SendStall` of
-- src/recovery/mod.rs.
pub mod Account
pub mod Walk
pub mod Tiers
pub mod Sink
pub mod Pass
use freemkv_engine.Base.{
  ℕ, zero, suc, ◌+◌, ◌-◌, ◌*◌, ◌/◌, ◌%◌, Bool, true, false, ◌&&◌, ◌||◌, Option, none, some, List,
  [], ◌∷◌, ◌++◌, ltb, leb, ◌==◌, if◌then◌else◌, min, u64_max, map,
}
use freemkv_engine.Ranges.{ByteRange}
use freemkv_engine.LibError.{LibError}
use freemkv_engine.SubRanges.{SubRanges, from_section, is_empty}
use freemkv_engine.Section.State.{
  HandlerOutcome, complete, remaining, halted, transport_fault, fatal, Surroundings, Run, Exit,
  value, returned, exhausted, sector, speed_max_kbs,
}
use freemkv_engine.Section.Chain.{
  Handler, run_handlers, build_tier_handlers, build_flat_pool, patch_tiers,
}

-- `snap_to_sectors`.
unfoldable pub snap_to_sectors : ℕ → ℕ → ByteRange
snap_to_sectors pos len =
    let start = pos - pos % sector in
    let end = min ((pos + len + (sector - 1)) / sector * sector) (u64_max / sector * sector) in
    if len == 0 then (start, 0) else (start, end - start)

-- `PatchItem`.
pub data PatchItem : Type 0 where
  recovered : ℕ → List ℕ → PatchItem
  non_trimmed : ℕ → ℕ → PatchItem

-- What `send_bounded` answers: the item is with the consumer, a Stop landed, or the error of
-- `SendStall::into_error`.
pub data SendAnswer : Type 0 where
  sent stopped : SendAnswer
  stalled : LibError → SendAnswer

-- `RegionOutcome`.
pub data RegionOutcome : Type 0 where
  completed region_halted region_fault : RegionOutcome

-- A result of the pass; `stuck` is for a chain of the model that runs out of fuel.
pub data PassResult : Type 0 where
  ok : RegionOutcome → PassResult
  err : LibError → PassResult
  stuck : PassResult

-- `PatchCtx` with its `PatchLoopState`, and the items that the consumer was sent.
pub record PatchCtx : Type 0 where
  pub is_halted : Bool
  pub wedged_exit : Bool
  pub wedge_streak : ℕ
  pub drive_speed : Option ℕ
  pub items : List PatchItem

-- What happens while one section is at work: whether a cancel is there before the first read and at
-- the report after it, the surroundings of the chain, which of its spans the pipe took (the others
-- fell to a Stop), their bytes, the answers to the sends of the residue, the order in which the
-- scoreboard puts a roster, and the budget of a handler.
pub record SectionEvents : Type 0 where
  pub cancelled : Bool
  pub cancelled_after : Bool
  pub surroundings : Surroundings
  pub took : ℕ → Bool
  pub bytes : ℕ → ℕ → ℕ
  pub residue : ℕ → SendAnswer
  pub order : List Handler → List Handler
  pub budget : ℕ

-- `count` bytes of a buffer.
unfoldable pub buffer : (ℕ → ℕ) → ℕ → List ℕ
buffer byte zero = []
buffer byte (suc count) = byte 0 ∷ buffer (λ i. byte (i + 1)) count

-- `PatchRecoverySink::recovered` for the spans that the chain handed over, the last of them first.
unfoldable pub recovered_items : SectionEvents → List ByteRange → ℕ → List PatchItem
unfolding buffer
recovered_items ev [] n = []
recovered_items ev ((pos, len) ∷ spans) n =
    let earlier = recovered_items ev spans (n + 1) in
    if ev.took n then earlier ++ recovered pos (buffer (ev.bytes n) len) ∷ [] else earlier

-- The residue of the final tier.
unfoldable pub send_residue : (ℕ → SendAnswer) → ℕ → SubRanges → PatchCtx → PassResult × PatchCtx
send_residue answer n [] c = (ok completed, c)
send_residue answer n ((pos, len) ∷ rs) c =
    let rest =
      send_residue answer (n + 1) rs (record c { items = c.items ++ non_trimmed pos len ∷ [] }) in
    elim (answer n) [
      | sent ↦ rest
      | stopped ↦ (ok region_halted, record c { is_halted = true })
      | stalled e ↦ (err e, c)
    ]

-- The end of a section, by the outcome of its chain.
abbrev pub region_end : HandlerOutcome → PatchCtx → PassResult × PatchCtx
region_end complete c = (ok completed, c)
region_end remaining c = (ok completed, c)
region_end halted c = (ok region_halted, record c { is_halted = true })
region_end transport_fault c = (ok region_fault, record c { wedged_exit = true })
region_end fatal c = (ok region_fault, record c { wedged_exit = true })

-- After the residue: the report, then the outcome.
abbrev pub after_residue : Bool → HandlerOutcome → PassResult × PatchCtx → PassResult × PatchCtx
after_residue cancelled o (ok completed, c) =
    if cancelled then (ok region_halted, record c { is_halted = true }) else region_end o c
after_residue cancelled o (ok region_halted, c) = (ok region_halted, c)
after_residue cancelled o (ok region_fault, c) = (ok region_fault, c)
after_residue cancelled o (err e, c) = (err e, c)
after_residue cancelled o (stuck, c) = (stuck, c)

-- After the chain: its items are with the consumer, and a fatal error fails the pass.
abbrev pub after_chain :
    SectionEvents → Bool → Exit (Unit {0}) × Run → PatchCtx → PassResult × PatchCtx
after_chain ev final_tier (returned o, r) c =
    let c' = record c {
      wedge_streak = r.ctx.wedge_streak;
      drive_speed = some r.ctx.cur_speed;
      items = c.items ++ recovered_items ev r.handed 0;
    } in
    elim r.ctx.fatal [
      | some e ↦ (err e, c')
      | none ↦
          after_residue ev.cancelled_after o
            (if final_tier then send_residue ev.residue 0 r.bad c' else (ok completed, c'))
    ]
after_chain ev final_tier (value a, r) c = (stuck, c)
after_chain ev final_tier (exhausted, r) c = (stuck, c)

-- The chain's state at the start of a section, the drive set to its maximal speed.
abbrev pub section_start : SubRanges → PatchCtx → Run
section_start set c = record {
  ctx = record {
    unproductive = 0;
    wedge_streak = c.wedge_streak;
    cur_speed = speed_max_kbs;
    fatal = none;
  };
  bad = set;
  turn = 0;
  handed = [];
  spindle = speed_max_kbs;
}

-- `PatchCtx::recover_section`.
unfoldable pub recover_section :
    SectionEvents → List Handler → Bool → SubRanges → PatchCtx → PassResult × SubRanges × PatchCtx
recover_section ev roster final_tier set c =
    let chain = run_handlers ev.surroundings ev.budget (ev.order roster) (section_start set c) in
    let (result, c') = after_chain ev final_tier chain c in
    if ev.cancelled
    then (ok region_halted, set, record c { is_halted = true })
    else (result, chain.1.bad, c')

-- A loop of `PatchCtx::run` over its sections, from an index on.
abbrev pub keep_head :
    SubRanges → PassResult × List SubRanges × PatchCtx → PassResult × List SubRanges × PatchCtx
keep_head s (result, sections, c) = (result, s ∷ sections, c)

abbrev pub after_section :
    List SubRanges
    → (PatchCtx → PassResult × List SubRanges × PatchCtx)
    → PassResult × SubRanges × PatchCtx
    → PassResult × List SubRanges × PatchCtx
after_section others rest (ok completed, s, c) = keep_head s (rest c)
after_section others rest (ok region_halted, s, c) = (ok region_halted, s ∷ others, c)
after_section others rest (ok region_fault, s, c) = (ok region_fault, s ∷ others, c)
after_section others rest (err e, s, c) = (err e, s ∷ others, c)
after_section others rest (stuck, s, c) = (stuck, s ∷ others, c)

unfoldable pub run_sections :
    (ℕ → SectionEvents)
    → List Handler
    → Bool
    → ℕ
    → List SubRanges
    → PatchCtx
    → PassResult × List SubRanges × PatchCtx
run_sections events roster final_tier idx [] c = (ok completed, [], c)
run_sections events roster final_tier idx (s ∷ sections) c =
    let rest = run_sections events roster final_tier (idx + 1) sections in
    if is_empty s
    then keep_head s (rest c)
    else after_section sections rest (recover_section (events idx) roster final_tier s c)

abbrev pub after_tier :
    (List SubRanges → PatchCtx → PassResult × List SubRanges × PatchCtx)
    → PassResult × List SubRanges × PatchCtx
    → PassResult × List SubRanges × PatchCtx
after_tier rest (ok completed, sections, c) = rest sections c
after_tier rest (ok region_halted, sections, c) = (ok region_halted, sections, c)
after_tier rest (ok region_fault, sections, c) = (ok region_fault, sections, c)
after_tier rest (err e, sections, c) = (err e, sections, c)
after_tier rest (stuck, sections, c) = (stuck, sections, c)

-- The tiers that are left, each on what the one before left behind.
unfoldable pub run_tiers :
    (ℕ → ℕ → SectionEvents)
    → ℕ
    → ℕ
    → List SubRanges
    → PatchCtx
    → PassResult × List SubRanges × PatchCtx
run_tiers events zero tier sections c = (ok completed, sections, c)
run_tiers events (suc left) tier sections c =
    after_tier (run_tiers events left (tier + 1))
      (run_sections (events tier) (build_tier_handlers tier) (tier + 1 == patch_tiers) 0 sections c)

-- `ordered.sort_by`: the largest range first, of equal ones that of the lower position.
abbrev pub before : ByteRange → ByteRange → Bool
before (p, n) (q, m) = ltb m n || (n == m && leb p q)

unfoldable pub insert_ordered : ByteRange → List ByteRange → List ByteRange
insert_ordered r [] = r ∷ []
insert_ordered r (s ∷ rs) = if before r s then r ∷ s ∷ rs else s ∷ insert_ordered r rs

unfoldable pub order_ranges : List ByteRange → List ByteRange
unfolding insert_ordered
order_ranges [] = []
order_ranges (r ∷ rs) = insert_ordered r (order_ranges rs)

unfoldable pub sections_of : List ByteRange → List SubRanges
unfolding snap_to_sectors
sections_of [] = []
sections_of ((p, n) ∷ rs) =
    let (pos, len) = snap_to_sectors p n in from_section pos len ∷ sections_of rs

-- `PatchCtx::run`.
unfoldable pub run :
    Bool
    → (ℕ → ℕ → SectionEvents)
    → List ByteRange
    → PatchCtx
    → PassResult × List SubRanges × PatchCtx
run flat events bad_ranges c =
    let sections = sections_of (order_ranges bad_ranges) in
    if flat
    then run_sections (events 0) build_flat_pool true 0 sections c
    else run_tiers events patch_tiers 0 sections c
