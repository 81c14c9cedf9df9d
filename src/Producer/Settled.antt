-- ===== src/Producer/Settled.antt =====
-- A whole sweep (src/recovery/mod.rs, src/recovery/sweep.rs): the read loop, and the consumer on the
-- items that it sent.
use freemkv_engine.Base.{
  ℕ, ◌+◌, ◌≤◌, ◌≡◌, refl, ap, ◌∙◌, Bool, true, false, ◌&&◌, ◌||◌, List, [], ◌∷◌, ◌++◌, arith, ltb,
  leb, u64_max, All,
}
use freemkv_engine.Ranges.{ByteRange, in_range}
use freemkv_engine.Mapfile.Runs.{status_at, IsRuns}
use freemkv_engine.Mapfile.State.{Result}
use freemkv_engine.Mapfile.Persist.{Env}
use freemkv_engine.Delivery.{Flow, deliver, went_on, any_covers, any_covers-append}
use freemkv_engine.Delivery.Statuses.{is_settled, deliver-is_settled}
use freemkv_engine.Sweep.{
  WorkItem, good, skip_fill, gap_fill, stats_request, SweepSink, FileEvents, apply, map_of,
}
use freemkv_engine.Sweep.Statuses.{item_covers, status_of, status_of-is_settled, apply-IsApplied}
use freemkv_engine.Producer.{SweepEvents, Producer, completed, read_regions}
use freemkv_engine.Producer.Turns.{item_size, begins, Tiles, IsReader, Fits}
use freemkv_engine.Producer.Walks.{
  Walk, walk_end, walk_region, walk_part, snapped, is_completed, read_regions-IsSent,
}

-- The bytes of the regions, each snapped to whole sectors.
unfoldable pub snapped_cover : List ByteRange → ℕ → Bool
snapped_cover [] x = false
snapped_cover (r ∷ rs) x = in_range (snapped r) x || snapped_cover rs x

item_covers-begins :
    (p x : ℕ) (i : WorkItem)
    → begins p i ≡ true
    → item_covers i x ≡ (leb p x && ltb x (p + item_size i))
item_covers-begins p x (good pos buf) b = ground arith
item_covers-begins p x (skip_fill pos len) b = ground arith
item_covers-begins p x (gap_fill pos len) b = ground arith
item_covers-begins p x stats_request b = ground arith

Tiles-le : (p q : ℕ) (is : List WorkItem) → Tiles p is q → p ≤ q
Tiles-le p q [] t = omega arith
Tiles-le p q (i ∷ is) t = omega (arith, Tiles-le (p + item_size i) q is t.1)

-- Items that lie side by side cover what is between their ends.
Tiles-covers :
    (p q x : ℕ) (is : List WorkItem)
    → Tiles p is q
    → any_covers item_covers is x ≡ (leb p x && ltb x q)
unfolding any_covers
Tiles-covers p q x [] t = ground arith
Tiles-covers p q x (i ∷ is) t =
    rw (item_covers-begins p x i t.0, Tiles-covers (p + item_size i) q x is t.1)
      (ground (arith, Tiles-le (p + item_size i) q is t.1))

-- A walk that completed covers its regions, and nothing else.
Walk-covers :
    (rs : List ByteRange) (b : Bool) (sent : List WorkItem) (x : ℕ)
    → Walk rs b sent
    → b ≡ true
    → any_covers item_covers sent x ≡ snapped_cover rs x
unfolding any_covers snapped_cover
Walk-covers _ _ _ x walk_end h = refl
Walk-covers _ _ _ x (walk_region r rs b is js t w) h =
    rw (any_covers-append item_covers is js x, Walk-covers rs b js x w h)
      (ap (λ c. c || snapped_cover rs x)
        (Tiles-covers (snapped r).0 ((snapped r).0 + (snapped r).1) x is t))
Walk-covers _ _ _ x (walk_part r rs is q t l) h = cc

-- What an item meets: the clock of the check and of the record, and the image file.
pub record SinkEvents : Type 0 where
  pub checked : Env
  pub env : Env
  pub file : FileEvents

-- The consumer on all items.
abbrev pub consume : (ℕ → SinkEvents) → List WorkItem → SweepSink → Result Flow × SweepSink
consume events items s =
    deliver (λ n. apply (events n).checked (events n).env (events n).file) 0 items s

module _ {Family : Type 0} where
  -- A sweep that completed, whose items the consumer all applied, from a map of maximal runs and with
  -- nothing sent before: each byte of its regions, snapped to whole sectors, is finished or to be
  -- trimmed in the consumer's mapfile, and any other byte keeps its status.
  pub sweep-is_settled :
      (ev : SweepEvents Family) (regions : List ByteRange) (p : Producer Family)
      (events : ℕ → SinkEvents) (s : SweepSink) (x : ℕ)
      → IsReader ev
      → Fits p
      → All (λ (r : ByteRange). r.0 ≤ u64_max) regions
      → p.items ≡ []
      → IsRuns 0 (map_of s).entries
      → (read_regions ev regions p).0 ≡ completed
      → went_on (consume events (read_regions ev regions p).1.items s).0 ≡ true
      → let s' = (consume events (read_regions ev regions p).1.items s).1 in
        (snapped_cover regions x ≡ true → is_settled (status_at (map_of s').entries x) ≡ true)
        × (snapped_cover regions x ≡ false
            → status_at (map_of s').entries x ≡ status_at (map_of s).entries x)
  sweep-is_settled ev regions p events s x r f b empty runs h w =
      let done = read_regions ev regions p in
      let sent = read_regions-IsSent ev regions p r f b in
      let same : done.1.items ≡ sent.sent_items =
        sent.sent_after ∙ ap (λ is. is ++ sent.sent_items) empty in
      let covers =
        ap (λ is. any_covers item_covers is x) same
        ∙ Walk-covers regions (is_completed done.0) sent.sent_items x sent.walk
            (ap is_completed h) in
      let settled =
        deliver-is_settled (λ (s : SweepSink). (map_of s).entries) item_covers status_of
          (λ n. apply (events n).checked (events n).env (events n).file) x
          (λ n i s' r'. apply-IsApplied (events n).checked (events n).env (events n).file i s' x r')
          0 done.1.items s status_of-is_settled runs w in
      (λ i. settled.0 (covers ∙ i), λ o. settled.1 (covers ∙ o))
