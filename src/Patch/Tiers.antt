-- ===== src/Patch/Tiers.antt =====
-- The tiers of a patch pass (src/recovery/patch.rs) account for its bad ranges.
use freemkv_engine.Base.{
  ℕ, zero, suc, ◌+◌, ◌≤◌, ◌≡◌, refl, subst, Bool, true, ◌||◌, List, [], ◌∷◌, arith, ◌==◌, All,
  if_split, if_cases,
}
use freemkv_engine.Ranges.{ByteRange, in_range, covered_by}
use freemkv_engine.SubRanges.{SubRanges, contains, from_section}
use freemkv_engine.SubRanges.Removed.{IsWell}
use freemkv_engine.Section.Chain.{build_tier_handlers, build_flat_pool, patch_tiers}
use freemkv_engine.Patch.{
  snap_to_sectors, PatchItem, completed, region_halted, region_fault, PassResult, ok, err, stuck,
  PatchCtx, SectionEvents, run_sections, after_tier, run_tiers, before, insert_ordered,
  order_ranges, sections_of, run,
}
use freemkv_engine.Patch.Account.{items_cover}
use freemkv_engine.Patch.Walk.{Took, Grows, AreLeft, IsWalked, run_sections-IsWalked}

-- Every byte of the sections is covered.
abbrev Covered : List SubRanges → List PatchItem → Type 0
Covered ss items = All (λ s. (x : ℕ) → contains s x ≡ true → items_cover items x ≡ true) ss

AreLeft-IsWell :
    (final_tier : Bool) (ss ss' : List SubRanges) (items : List PatchItem)
    → AreLeft final_tier ss ss' items
    → All (IsWell 0) ss'
AreLeft-IsWell final_tier [] [] items l = tt
AreLeft-IsWell final_tier [] (s' ∷ ss') items l = absurd l
AreLeft-IsWell final_tier (s ∷ ss) [] items l = absurd l
AreLeft-IsWell final_tier (s ∷ ss) (s' ∷ ss') items l =
    (l.0.well, AreLeft-IsWell final_tier ss ss' items l.1)

final-Covered :
    (ss ss' : List SubRanges) (items : List PatchItem)
    → AreLeft true ss ss' items
    → Covered ss items
final-Covered [] [] items l = tt
final-Covered [] (s' ∷ ss') items l = absurd l
final-Covered (s ∷ ss) [] items l = absurd l
final-Covered (s ∷ ss) (s' ∷ ss') items l =
    (λ x i. ground (arith, l.0.shared x i, l.0.settled refl x), final-Covered ss ss' items l.1)

earlier-Covered :
    (final_tier : Bool) (ss ss' : List SubRanges) (is js : List PatchItem)
    → AreLeft final_tier ss ss' is
    → Grows is js
    → Covered ss' js
    → Covered ss js
earlier-Covered final_tier [] [] is js l g k = tt
earlier-Covered final_tier [] (s' ∷ ss') is js l g k = absurd l
earlier-Covered final_tier (s ∷ ss) [] is js l g k = absurd l
earlier-Covered final_tier (s ∷ ss) (s' ∷ ss') is js l g k = (
  λ x i. ground (arith, l.0.shared x i, g x, k.0 x),
  earlier-Covered final_tier ss ss' is js l.1 g k.1,
)

abbrev IsDone : List SubRanges → PatchCtx → PassResult × List SubRanges × PatchCtx → Type 0
IsDone ss c (result, ss', c') = result ≡ ok completed → Grows c.items c'.items × Covered ss c'.items

after_tier-IsDone :
    (final_tier : Bool) (ss : List SubRanges) (c : PatchCtx)
    (rest : List SubRanges → PatchCtx → PassResult × List SubRanges × PatchCtx)
    (t : PassResult × List SubRanges × PatchCtx)
    → IsWalked final_tier ss c t
    → ((ss1 : List SubRanges) (c1 : PatchCtx) → All (IsWell 0) ss1 → IsDone ss1 c1 (rest ss1 c1))
    → IsDone ss c (after_tier rest t)
after_tier-IsDone final_tier ss c rest (ok completed, ss1, c1) w r h =
    let walked = w refl in
    let done = r ss1 c1 (AreLeft-IsWell final_tier ss ss1 c1.items walked.1) h in
    (
      λ x i. done.0 x (walked.0 x i),
      earlier-Covered final_tier ss ss1 c1.items (rest ss1 c1).2.items walked.1 done.0 done.1,
    )
after_tier-IsDone final_tier ss c rest (ok region_halted, ss1, c1) w r h = cc
after_tier-IsDone final_tier ss c rest (ok region_fault, ss1, c1) w r h = cc
after_tier-IsDone final_tier ss c rest (err e, ss1, c1) w r h = cc
after_tier-IsDone final_tier ss c rest (stuck, ss1, c1) w r h = cc

last_tier-IsDone :
    (ss : List SubRanges) (c : PatchCtx) (events : ℕ → ℕ → SectionEvents) (tier : ℕ)
    (t : PassResult × List SubRanges × PatchCtx)
    → IsWalked true ss c t
    → IsDone ss c (after_tier (run_tiers events 0 tier) t)
unfolding run_tiers
last_tier-IsDone ss c events tier (ok completed, ss1, c1) w h =
    ((w refl).0, final-Covered ss ss1 c1.items (w refl).1)
last_tier-IsDone ss c events tier (ok region_halted, ss1, c1) w h = cc
last_tier-IsDone ss c events tier (ok region_fault, ss1, c1) w h = cc
last_tier-IsDone ss c events tier (err e, ss1, c1) w h = cc
last_tier-IsDone ss c events tier (stuck, ss1, c1) w h = cc

run_tiers-IsDone :
    (events : ℕ → ℕ → SectionEvents) (left tier : ℕ) (ss : List SubRanges) (c : PatchCtx)
    → ((n : ℕ) → Took (events n))
    → tier + suc left ≡ 3
    → All (IsWell 0) ss
    → IsDone ss c (run_tiers events (suc left) tier ss c)
unfolding run_tiers
run_tiers-IsDone events zero tier ss c t e w =
    last_tier-IsDone ss c events (tier + 1)
      (run_sections (events tier) (build_tier_handlers tier) (tier + 1 == 3) 0 ss c)
      (subst
        (λ f.
          IsWalked f ss c
            (run_sections (events tier) (build_tier_handlers tier) (tier + 1 == 3) 0 ss c))
        (ground arith)
        (run_sections-IsWalked (events tier) (build_tier_handlers tier) (tier + 1 == 3) 0 ss c
          (t tier) w))
run_tiers-IsDone events (suc left) tier ss c t e w =
    let walked = run_sections (events tier) (build_tier_handlers tier) (tier + 1 == 3) 0 ss c in
    after_tier-IsDone (tier + 1 == 3) ss c (run_tiers events (suc left) (tier + 1)) walked
      (run_sections-IsWalked (events tier) (build_tier_handlers tier) (tier + 1 == 3) 0 ss c
        (t tier) w)
      (λ ss1 c1 w1. run_tiers-IsDone events left (tier + 1) ss1 c1 t (omega arith) w1)

insert_ordered-All :
    (P : ByteRange → Type 0) (r : ByteRange) (rs : List ByteRange)
    → All P (insert_ordered r rs)
    → P r × All P rs
unfolding insert_ordered
insert_ordered-All P r [] a = a
insert_ordered-All P r (s ∷ rs) all =
    if_split (λ l. All P l → P r × (P s × All P rs)) (before r s) (r ∷ s ∷ rs)
      (s ∷ insert_ordered r rs) (λ _ a. a)
      (λ _ a. let inner = insert_ordered-All P r rs a.1 in (inner.0, (a.0, inner.1))) all

order_ranges-All :
    (P : ByteRange → Type 0) (rs : List ByteRange) → All P (order_ranges rs) → All P rs
unfolding order_ranges
order_ranges-All P [] a = tt
order_ranges-All P (r ∷ rs) a =
    let inner = insert_ordered-All P r (order_ranges rs) a in
    (inner.0, order_ranges-All P rs inner.1)

-- A snapped section is of whole sectors, and has every byte of its range.
from_section-IsWell :
    (p n : ℕ) → IsWell 0 (from_section (snap_to_sectors p n).0 (snap_to_sectors p n).1)
unfolding snap_to_sectors
from_section-IsWell p n = ground arith

contains-from_section :
    (p n x : ℕ)
    → p + n ≤ 18446744073709549568
    → in_range (p, n) x ≡ true
    → contains (from_section (snap_to_sectors p n).0 (snap_to_sectors p n).1) x ≡ true
unfolding snap_to_sectors contains
contains-from_section p n x b i = ground arith

sections_of-IsWell : (rs : List ByteRange) → All (IsWell 0) (sections_of rs)
unfolding sections_of
sections_of-IsWell [] = tt
sections_of-IsWell ((p, n) ∷ rs) = (from_section-IsWell p n, sections_of-IsWell rs)

-- A range within the last whole sector of u64 whose bytes are all covered.
abbrev IsSettled : List PatchItem → ByteRange → Type 0
IsSettled items r =
    r.0 + r.1 ≤ 18446744073709549568 → (x : ℕ) → in_range r x ≡ true → items_cover items x ≡ true

sections_of-IsSettled :
    (rs : List ByteRange) (items : List PatchItem)
    → Covered (sections_of rs) items
    → All (IsSettled items) rs
unfolding sections_of
sections_of-IsSettled [] items k = tt
sections_of-IsSettled ((p, n) ∷ rs) items k =
    (λ b x i. k.0 x (contains-from_section p n x b i), sections_of-IsSettled rs items k.1)

walked-IsDone :
    (ss : List SubRanges) (c : PatchCtx) (t : PassResult × List SubRanges × PatchCtx)
    → IsWalked true ss c t
    → IsDone ss c t
walked-IsDone ss c (result, ss', c') w h = ((w h).0, final-Covered ss ss' c'.items (w h).1)

-- A range that ends within the last whole sector of u64.
abbrev pub Fits : ByteRange → Type 0
Fits r = r.0 + r.1 ≤ 18446744073709549568

settled-covers :
    (rs : List ByteRange) (items : List PatchItem) (x : ℕ)
    → All (IsSettled items) rs
    → All Fits rs
    → covered_by rs x ≡ true
    → items_cover items x ≡ true
unfolding covered_by
settled-covers [] items x a b h = cc
settled-covers (r ∷ rs) items x a b h = ground (arith, a.0 b.0 x, settled-covers rs items x a.1 b.1)

-- A patch pass that runs to its end, all of whose spans the pipe took, whatever the drive and the
-- clock do and in the order of any scoreboard, flat or by tiers: every byte of its bad ranges, which
-- end within the last whole sector of u64, is in an item that the consumer was sent, as recovered
-- data or as residue to try again; and no item that was sent before is lost.
pub run-covers :
    (flat : Bool) (events : ℕ → ℕ → SectionEvents) (bad_ranges : List ByteRange) (c : PatchCtx)
    (x : ℕ)
    → ((n : ℕ) → Took (events n))
    → All Fits bad_ranges
    → (run flat events bad_ranges c).0 ≡ ok completed
    → (covered_by bad_ranges x || items_cover c.items x) ≡ true
    → items_cover (run flat events bad_ranges c).2.items x ≡ true
unfolding run
run-covers flat events bad_ranges c x t fit h =
    let ordered = order_ranges bad_ranges in
    let sections = sections_of ordered in
    let well = sections_of-IsWell ordered in
    let done : IsDone sections c (run flat events bad_ranges c) =
      if_cases (IsDone sections c) flat (run_sections (events 0) build_flat_pool true 0 sections c)
        (run_tiers events patch_tiers 0 sections c)
        (walked-IsDone sections c (run_sections (events 0) build_flat_pool true 0 sections c)
          (run_sections-IsWalked (events 0) build_flat_pool true 0 sections c (t 0) well))
        (run_tiers-IsDone events 2 0 sections c t (omega arith) well) in
    let items = (run flat events bad_ranges c).2.items in
    let settled =
      order_ranges-All (IsSettled items) bad_ranges
        (sections_of-IsSettled ordered items (done h).1) in
    λ i. ground (arith, (done h).0 x, settled-covers bad_ranges items x settled fit)
