-- ===== src/Patch/Walk.antt =====
-- The walk of a patch pass over its sections and tiers (src/recovery/patch.rs) accounts for its bad
-- ranges.
use freemkv_engine.Base.{ℕ, ◌+◌, ◌≡◌, refl, Bool, true, ◌||◌, List, [], ◌∷◌, arith, All, if_split}
use freemkv_engine.SubRanges.{SubRanges, contains, is_empty}
use freemkv_engine.SubRanges.Removed.{IsWell}
use freemkv_engine.Section.Chain.{Handler}
use freemkv_engine.Patch.{
  PatchItem, completed, region_halted, region_fault, PassResult, ok, err, stuck, PatchCtx,
  SectionEvents, recover_section, keep_head, after_section, run_sections,
}
use freemkv_engine.Patch.Account.{items_cover, IsAccounted, recover_section-IsAccounted}

abbrev pub Took : (ℕ → SectionEvents) → Type 0
Took events = (idx i : ℕ) → (events idx).took i ≡ true

-- Every item covered before is covered after.
abbrev pub Grows : List PatchItem → List PatchItem → Type 0
Grows is js = (x : ℕ) → items_cover is x ≡ true → items_cover js x ≡ true

-- What a tier leaves of a section, against the items at its end.
pub record IsLeft (final_tier : Bool) (set set' : SubRanges) (items : List PatchItem) : Type 0 where
  pub well : IsWell 0 set'
  pub shared : (x : ℕ) → contains set x ≡ true → (contains set' x || items_cover items x) ≡ true
  pub settled : final_tier ≡ true → (x : ℕ) → contains set' x ≡ true → items_cover items x ≡ true

abbrev pub AreLeft : Bool → List SubRanges → List SubRanges → List PatchItem → Type 0
AreLeft final_tier [] [] items = Unit {0}
AreLeft final_tier [] (s' ∷ ss') items = ⊥
AreLeft final_tier (s ∷ ss) [] items = ⊥
AreLeft final_tier (s ∷ ss) (s' ∷ ss') items =
    IsLeft final_tier s s' items × AreLeft final_tier ss ss' items

grown-IsLeft :
    (final_tier : Bool) (s s' : SubRanges) (is js : List PatchItem)
    → Grows is js
    → IsLeft final_tier s s' is
    → IsLeft final_tier s s' js
grown-IsLeft final_tier s s' is js g l = record {
  well = l.well;
  shared = λ x i. ground (arith, l.shared x i, g x);
  settled = λ f x i. g x (l.settled f x i);
}

untouched-IsLeft :
    (final_tier : Bool) (s : SubRanges) (items : List PatchItem)
    → IsWell 0 s
    → is_empty s ≡ true
    → IsLeft final_tier s s items
unfolding contains
untouched-IsLeft final_tier [] items w e = record {
  well = w;
  shared = λ x i. cc;
  settled = λ f x i. cc;
}
untouched-IsLeft final_tier (r ∷ rs) items w e = cc

-- A walk that completed: the items grew, and the sections are left as they should be.
abbrev pub IsWalked :
    Bool → List SubRanges → PatchCtx → PassResult × List SubRanges × PatchCtx → Type 0
IsWalked final_tier ss c (result, ss', c') =
    result ≡ ok completed → Grows c.items c'.items × AreLeft final_tier ss ss' c'.items

keep_head-IsWalked :
    (final_tier : Bool) (s s' : SubRanges) (ss : List SubRanges) (c c1 : PatchCtx)
    (r : PassResult × List SubRanges × PatchCtx)
    → Grows c.items c1.items
    → IsLeft final_tier s s' c1.items
    → IsWalked final_tier ss c1 r
    → IsWalked final_tier (s ∷ ss) c (keep_head s' r)
keep_head-IsWalked final_tier s s' ss c c1 (result, ss', c') g l w h =
    (λ x i. (w h).0 x (g x i), (grown-IsLeft final_tier s s' c1.items c'.items (w h).0 l, (w h).1))

after_section-IsWalked :
    (final_tier : Bool) (s : SubRanges) (ss : List SubRanges) (c : PatchCtx)
    (rest : PatchCtx → PassResult × List SubRanges × PatchCtx)
    (t : PassResult × SubRanges × PatchCtx)
    → (t.0 ≡ ok completed → IsAccounted final_tier s t.1 c t.2)
    → ((c1 : PatchCtx) → IsWalked final_tier ss c1 (rest c1))
    → IsWalked final_tier (s ∷ ss) c (after_section ss rest t)
after_section-IsWalked final_tier s ss c rest (ok completed, s', c1) a w =
    let done = a refl in
    keep_head-IsWalked final_tier s s' ss c c1 (rest c1) done.kept
      (record { well = done.well; shared = done.shared; settled = done.settled }) (w c1)
after_section-IsWalked final_tier s ss c rest (ok region_halted, s', c1) a w = λ h. cc
after_section-IsWalked final_tier s ss c rest (ok region_fault, s', c1) a w = λ h. cc
after_section-IsWalked final_tier s ss c rest (err e, s', c1) a w = λ h. cc
after_section-IsWalked final_tier s ss c rest (stuck, s', c1) a w = λ h. cc

pub run_sections-IsWalked :
    (events : ℕ → SectionEvents) (roster : List Handler) (final_tier : Bool) (idx : ℕ)
    (ss : List SubRanges) (c : PatchCtx)
    → Took events
    → All (IsWell 0) ss
    → IsWalked final_tier ss c (run_sections events roster final_tier idx ss c)
unfolding run_sections
run_sections-IsWalked events roster final_tier idx [] c t w = λ h. (λ x i. i, tt)
run_sections-IsWalked events roster final_tier idx (s ∷ ss) c t w =
    let rest = run_sections events roster final_tier (idx + 1) ss in
    let walked =
      λ (c1 : PatchCtx). run_sections-IsWalked events roster final_tier (idx + 1) ss c1 t w.1 in
    if_split (IsWalked final_tier (s ∷ ss) c) (is_empty s) (keep_head s (rest c))
      (after_section ss rest (recover_section (events idx) roster final_tier s c))
      (λ empty.
        keep_head-IsWalked final_tier s s ss c c (rest c) (λ x i. i)
          (untouched-IsLeft final_tier s c.items w.0 empty) (walked c))
      (λ some_left.
        after_section-IsWalked final_tier s ss c rest
          (recover_section (events idx) roster final_tier s c)
          (recover_section-IsAccounted (events idx) (t idx) final_tier s c roster w.0) walked)
