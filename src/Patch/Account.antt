-- ===== src/Patch/Account.antt =====
-- What a patch pass (src/recovery/patch.rs) accounts for: every byte of its bad ranges is in an item
-- that the consumer was sent.
use freemkv_engine.Base.{
  ℕ, zero, suc, ◌+◌, ◌≡◌, refl, ap, ◌∙◌, subst, Bool, true, false, ◌||◌, Option, none, some, List,
  [], ◌∷◌, ◌++◌, arith, if◌then◌else◌, length, if_split,
}
use freemkv_engine.Ranges.{ByteRange, in_range, covered_by}
use freemkv_engine.SubRanges.{SubRanges, contains}
use freemkv_engine.SubRanges.Removed.{IsWell}
use freemkv_engine.LibError.{LibError}
use freemkv_engine.Section.State.{
  HandlerOutcome, complete, remaining, halted, transport_fault, fatal, Run, Exit, value, returned,
  exhausted,
}
use freemkv_engine.Section.Chain.{Handler, run_handlers}
use freemkv_engine.Section.Exact.Chained.{IsChained, run_handlers-IsChained}
use freemkv_engine.Delivery.{any_covers, any_covers-append}
use freemkv_engine.Patch.{
  PatchItem, recovered, non_trimmed, SendAnswer, completed, region_halted, region_fault, PassResult,
  ok, err, stuck, PatchCtx, SectionEvents, buffer, recovered_items, send_residue, region_end,
  after_residue, after_chain, section_start, recover_section,
}

-- The bytes that an item is about.
abbrev pub item_covers : PatchItem → ℕ → Bool
item_covers (recovered pos buf) x = in_range (pos, length buf) x
item_covers (non_trimmed pos len) x = in_range (pos, len) x

abbrev pub items_cover : List PatchItem → ℕ → Bool
items_cover = any_covers item_covers

pub length-buffer : (byte : ℕ → ℕ) (n : ℕ) → length (buffer byte n) ≡ n
unfolding buffer
length-buffer byte zero = refl
length-buffer byte (suc n) = omega (arith, length-buffer (λ i. byte (i + 1)) n)

-- Where the pipe took every span, its items cover what the chain handed over.
items_cover-recovered_items :
    (ev : SectionEvents) (spans : List ByteRange) (n x : ℕ)
    → ((i : ℕ) → ev.took i ≡ true)
    → items_cover (recovered_items ev spans n) x ≡ covered_by spans x
unfolding recovered_items any_covers covered_by
items_cover-recovered_items ev [] n x t = refl
items_cover-recovered_items ev ((pos, len) ∷ spans) n x t =
    let earlier = recovered_items ev spans (n + 1) in
    let last = recovered pos (buffer (ev.bytes n) len) ∷ [] in
    rw (t n) (
      rw
        (
          any_covers-append item_covers earlier last x,
          items_cover-recovered_items ev spans (n + 1) x t,
          length-buffer (ev.bytes n) len,
        )
        (ground arith))

-- A residue that was sent whole is covered, and what was covered still is.
send_residue-covers :
    (answer : ℕ → SendAnswer) (n : ℕ) (rs : SubRanges) (c : PatchCtx) (x : ℕ)
    → (send_residue answer n rs c).0 ≡ ok completed
    → items_cover (send_residue answer n rs c).1.items x ≡ (items_cover c.items x || contains rs x)
unfolding send_residue any_covers contains
send_residue-covers answer n [] c x h = ground arith
send_residue-covers answer n ((pos, len) ∷ rs) c x h =
    let c' : PatchCtx = record c { items = c.items ++ non_trimmed pos len ∷ [] } in
    ground (
      arith,
      send_residue-covers answer (n + 1) rs c' x,
      any_covers-append item_covers c.items (non_trimmed pos len ∷ []) x,
    )

-- Of a section: what was covered still is, and its bytes are still bad or covered; after the final
-- tier they are covered.
pub record IsAccounted (final_tier : Bool) (set set' : SubRanges) (c c' : PatchCtx) : Type 0 where
  pub well : IsWell 0 set'
  pub kept : (x : ℕ) → items_cover c.items x ≡ true → items_cover c'.items x ≡ true
  pub shared : (x : ℕ) → contains set x ≡ true → (contains set' x || items_cover c'.items x) ≡ true
  pub settled : final_tier ≡ true → (x : ℕ) → contains set' x ≡ true → items_cover c'.items x ≡ true

region_end-items : (o : HandlerOutcome) (c : PatchCtx) → (region_end o c).1.items ≡ c.items
region_end-items complete c = refl
region_end-items remaining c = refl
region_end-items halted c = refl
region_end-items transport_fault c = refl
region_end-items fatal c = refl

-- A completed end after the residue had a residue that completed.
after_residue-completed :
    (cancelled : Bool) (o : HandlerOutcome) (r : PassResult × PatchCtx)
    → (after_residue cancelled o r).0 ≡ ok completed
    → (r.0 ≡ ok completed) × ((after_residue cancelled o r).1.items ≡ r.1.items)
after_residue-completed true o (ok completed, c) h = cc
after_residue-completed false o (ok completed, c) h = (refl, region_end-items o c)
after_residue-completed cancelled o (ok region_halted, c) h = cc
after_residue-completed cancelled o (ok region_fault, c) h = cc
after_residue-completed cancelled o (err e, c) h = cc
after_residue-completed cancelled o (stuck, c) h = cc

module _ (ev : SectionEvents) (took : (i : ℕ) → ev.took i ≡ true) (final_tier : Bool)
    (set : SubRanges) (c : PatchCtx) where
  abbrev with_chain : Run → PatchCtx
  with_chain r = record c {
    wedge_streak = r.ctx.wedge_streak;
    drive_speed = some r.ctx.cur_speed;
    items = c.items ++ recovered_items ev r.handed 0;
  }

  with_chain-covers :
      (r : Run) (x : ℕ)
      → items_cover (with_chain r).items x ≡ (items_cover c.items x || covered_by r.handed x)
  with_chain-covers r x =
      any_covers-append item_covers c.items (recovered_items ev r.handed 0) x
      ∙ ap (λ b. items_cover c.items x || b) (items_cover-recovered_items ev r.handed 0 x took)

  -- The residue of a chain, after the final tier or not at all.
  abbrev residue_of : Run → PassResult × PatchCtx
  residue_of r =
      if final_tier
      then send_residue ev.residue 0 r.bad (with_chain r)
      else (ok completed, with_chain r)

  residue-IsAccounted :
      (o : HandlerOutcome) (r : Run)
      → IsChained set o r
      → (residue_of r).0 ≡ ok completed
      → IsAccounted final_tier set r.bad c (residue_of r).1
  residue-IsAccounted o r k h = record {
    well = k.well;
    kept = λ x i.
        ground
          (arith, with_chain-covers r x, send_residue-covers ev.residue 0 r.bad (with_chain r) x);
    shared = λ x i. ground (
      arith,
      with_chain-covers r x,
      k.exact x,
      send_residue-covers ev.residue 0 r.bad (with_chain r) x,
    );
    settled = λ f x i.
        ground
          (arith, with_chain-covers r x, send_residue-covers ev.residue 0 r.bad (with_chain r) x);
  }

  same_items :
      (d d' : PatchCtx) (r : Run)
      → d'.items ≡ d.items
      → IsAccounted final_tier set r.bad c d
      → IsAccounted final_tier set r.bad c d'
  same_items d d' r e a = record {
    well = a.well;
    kept = λ x i. ap (λ l. items_cover l x) e ∙ a.kept x i;
    shared = λ x i. ap (λ l. contains r.bad x || items_cover l x) e ∙ a.shared x i;
    settled = λ f x i. ap (λ l. items_cover l x) e ∙ a.settled f x i;
  }

  after_chain-IsAccounted :
      (o : HandlerOutcome) (r : Run)
      → IsChained set o r
      → (after_chain ev final_tier (returned o, r) c).0 ≡ ok completed
      → IsAccounted final_tier set r.bad c (after_chain ev final_tier (returned o, r) c).1
  after_chain-IsAccounted o r k =
      let end : Option LibError → PassResult × PatchCtx = λ f. elim f [
        | some e ↦ (err e, with_chain r)
        | none ↦ after_residue ev.cancelled_after o (residue_of r)
      ] in
      elim r.ctx.fatal
        as (λ f. (end f).0 ≡ ok completed → IsAccounted final_tier set r.bad c (end f).1) [
          | some e ↦ λ h. cc
          | none ↦ λ h.
              let done = after_residue-completed ev.cancelled_after o (residue_of r) h in
              same_items (residue_of r).1 (end none).1 r done.1 (residue-IsAccounted o r k done.0)
        ]

  chain_end-IsAccounted :
      (h : Exit (Unit {0}) × Run)
      → (o : HandlerOutcome) × (h.0 ≡ returned o) × IsChained set o h.1
      → (after_chain ev final_tier h c).0 ≡ ok completed
      → IsAccounted final_tier set h.1.bad c (after_chain ev final_tier h c).1
  chain_end-IsAccounted (returned o, r) (o', e, k) =
      let same : o' ≡ o = cc in after_chain-IsAccounted o r (subst (λ p. IsChained set p r) same k)
  chain_end-IsAccounted (value a, r) (o', e, k) = λ h. cc
  chain_end-IsAccounted (exhausted, r) (o', e, k) = λ h. cc

  pub recover_section-IsAccounted :
      (roster : List Handler)
      → IsWell 0 set
      → (recover_section ev roster final_tier set c).0 ≡ ok completed
      → IsAccounted final_tier set
          (recover_section ev roster final_tier set c).1
          c
          (recover_section ev roster final_tier set c).2
  unfolding recover_section
  recover_section-IsAccounted roster w =
      let start = section_start set c in
      let chain = run_handlers ev.surroundings ev.budget (ev.order roster) start in
      let end : PassResult × SubRanges × PatchCtx =
        let (result, c') = after_chain ev final_tier chain c in (result, chain.1.bad, c') in
      let chained =
        run_handlers-IsChained ev.surroundings ev.budget (ev.order roster) start
          (record { well = w; unhanded = refl; top = refl; spinning = refl }) in
      if_split
        (λ (t : PassResult × SubRanges × PatchCtx).
          t.0 ≡ ok completed → IsAccounted final_tier set t.1 c t.2)
        ev.cancelled (ok region_halted, set, record c { is_halted = true }) end (λ _ h. cc)
        (λ _. chain_end-IsAccounted chain chained)
