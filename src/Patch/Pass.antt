-- ===== src/Patch/Pass.antt =====
-- A whole patch pass (src/recovery/patch.rs): the producer's walk, and its consumer on the items.
use freemkv_engine.Base.{ℕ, ◌≡◌, refl, Bool, true, false, some, List, arith, All}
use freemkv_engine.Ranges.{ByteRange, covered_by}
use freemkv_engine.Mapfile.Runs.{status_at, IsRuns}
use freemkv_engine.Patch.{PatchItem, completed, PassResult, PatchCtx, SectionEvents, run}
use freemkv_engine.Patch.Account.{item_covers, items_cover}
use freemkv_engine.Patch.Walk.{Took}
use freemkv_engine.Patch.Tiers.{Fits, run-covers}
use freemkv_engine.Patch.Sink.{PatchSink, ApplyEvents, apply, apply_all}
use freemkv_engine.Patch.Sink.Statuses.{status_of, apply-IsApplied}
use freemkv_engine.Delivery.{went_on}
use freemkv_engine.Delivery.Statuses.{is_settled, deliver-is_settled}

status_of-is_settled : (i : PatchItem) → is_settled (some (status_of i)) ≡ true
status_of-is_settled (PatchItem.recovered pos buf) = refl
status_of-is_settled (PatchItem.non_trimmed pos len) = refl

-- A patch pass that runs to its end, all of whose items the pipe took and the consumer applied, from
-- a map of maximal runs: every byte of the bad ranges, which end within the last whole sector of
-- u64, is finished or to be trimmed in the consumer's mapfile; and a byte that is in no item keeps
-- its status.
pub run-is_settled :
    (flat : Bool) (events : ℕ → ℕ → SectionEvents) (bad_ranges : List ByteRange) (c : PatchCtx)
    (applied : ℕ → ApplyEvents) (s : PatchSink) (x : ℕ)
    → ((n : ℕ) → Took (events n))
    → All Fits bad_ranges
    → IsRuns 0 s.world.map.entries
    → (run flat events bad_ranges c).0 ≡ PassResult.ok completed
    → went_on (apply_all applied 0 (run flat events bad_ranges c).2.items s).0 ≡ true
    → let s' = (apply_all applied 0 (run flat events bad_ranges c).2.items s).1 in
      (covered_by bad_ranges x ≡ true → is_settled (status_at s'.world.map.entries x) ≡ true)
      × (items_cover (run flat events bad_ranges c).2.items x ≡ false
          → status_at s'.world.map.entries x ≡ status_at s.world.map.entries x)
run-is_settled flat events bad_ranges c applied s x t fit r h w =
    let items = (run flat events bad_ranges c).2.items in
    let settled =
      deliver-is_settled (λ (s : PatchSink). s.world.map.entries) item_covers status_of
        (λ n. apply (applied n)) x (λ n i s' r'. apply-IsApplied (applied n) i s' x r') 0 items s
        status_of-is_settled r w in
    (λ i. settled.0 (run-covers flat events bad_ranges c x t fit h (ground (arith, i))), settled.1)
