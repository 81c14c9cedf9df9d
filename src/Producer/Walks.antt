-- ===== src/Producer/Walks.antt =====
-- The read loop of a sweep over its regions (`sweep_linked` of src/recovery/mod.rs): it ends, and what
-- it sends lies side by side over the regions.
use freemkv_engine.Base.{
  ℕ, zero, suc, ◌+◌, ◌≤◌, ◌≡◌, refl, sym, ap, ◌∙◌, subst, Bool, true, false, ◌||◌, List, [], ◌∷◌,
  ◌++◌, arith, ltb, min, u64_max, if_split, append_assoc, append-nil, All,
}
use freemkv_engine.Ranges.{ByteRange}
use freemkv_engine.Sweep.{WorkItem}
use freemkv_engine.Patch.{snap_to_sectors}
use freemkv_engine.Producer.{
  SweepEvents, Producer, Ending, completed, halt_requested, stuck, producer_err, Turn, goes_on,
  ends, read_turn, after_turn, read_region, region_fuel, after_region, read_regions,
}
use freemkv_engine.Producer.Turns.{
  item_size, Tiles, good_bytes, good_bytes-append, IsReader, Fits, IsGrown, same-IsGrown,
  IsGrown-append, IsGrown-Fits,
}
use freemkv_engine.Producer.Steps.{is_early, left, IsTurned}
use freemkv_engine.Producer.Actions.{read_turn-IsTurned}

-- The bytes of all items.
unfoldable pub sent_bytes : List WorkItem → ℕ
sent_bytes [] = 0
sent_bytes (i ∷ is) = item_size i + sent_bytes is

sent_bytes-append : (is js : List WorkItem) → sent_bytes (is ++ js) ≡ sent_bytes is + sent_bytes js
unfolding sent_bytes
sent_bytes-append [] js = omega arith
sent_bytes-append (i ∷ is) js = omega (arith, sent_bytes-append is js)

sent_bytes-Tiles : (p q : ℕ) (is : List WorkItem) → Tiles p is q → p + sent_bytes is ≡ q
unfolding sent_bytes
sent_bytes-Tiles p q [] t = omega arith
sent_bytes-Tiles p q (i ∷ is) t = omega (arith, sent_bytes-Tiles (p + item_size i) q is t.1)

abbrev pub snapped : ByteRange → ByteRange
snapped r = snap_to_sectors r.0 r.1

abbrev pub is_completed : Ending → Bool
is_completed completed = true
is_completed _ = false

-- What a walk over regions sends: items side by side over each region, up to where it ended.
pub data Walk : List ByteRange → Bool → List WorkItem → Type 0 where
  walk_end : Walk [] true []
  walk_region :
      (r : ByteRange) (rs : List ByteRange) (b : Bool) (is js : List WorkItem)
      → Tiles (snapped r).0 is ((snapped r).0 + (snapped r).1)
      → Walk rs b js
      → Walk (r ∷ rs) b (is ++ js)
  walk_part :
      (r : ByteRange) (rs : List ByteRange) (is : List WorkItem) (q : ℕ)
      → Tiles (snapped r).0 is q
      → q ≤ (snapped r).0 + (snapped r).1
      → Walk (r ∷ rs) false is

snap-fits :
    (pos size : ℕ)
    → pos ≤ u64_max
    → (snap_to_sectors pos size).0 + (snap_to_sectors pos size).1 ≤ u64_max
unfolding snap_to_sectors
snap-fits pos size h = ground arith

module _ {Family : Type 0} where
  -- The region was read to its end, or the loop ended early within it.
  abbrev IsRead : ℕ → ℕ → Producer Family → Ending × Producer Family → Type 0
  IsRead region_end pos p (completed, p') = IsGrown pos region_end p p'
  IsRead region_end pos p (halt_requested, p') = (q : ℕ) × IsGrown pos q p p' × (q ≤ region_end)
  IsRead region_end pos p (stuck, p') = ⊥
  IsRead region_end pos p (producer_err e, p') = (q : ℕ) × IsGrown pos q p p' × (q ≤ region_end)

  on_from :
      (region_end pos q : ℕ) (p p' : Producer Family) (r : Ending × Producer Family)
      → IsGrown pos q p p'
      → IsRead region_end q p' r
      → IsRead region_end pos p r
  on_from region_end pos q p p' (completed, p'') g h = IsGrown-append pos q region_end p p' p'' g h
  on_from region_end pos q p p' (halt_requested, p'') g (e, h, b) =
      (e, IsGrown-append pos q e p p' p'' g h, b)
  on_from region_end pos q p p' (stuck, p'') g h = h
  on_from region_end pos q p p' (producer_err err, p'') g (e, h, b) =
      (e, IsGrown-append pos q e p p' p'' g h, b)

  module _ (ev : SweepEvents Family) (r : IsReader ev) where
    after_turn-IsRead :
        (fuel region_end pos : ℕ) (p : Producer Family) (t : Turn Family)
        → left region_end pos p ≤ suc fuel
        → IsTurned region_end pos p t
        → ((q : ℕ) (p' : Producer Family)
            → Fits p'
            → q ≤ region_end
            → left region_end q p' ≤ fuel
            → IsRead region_end q p' (read_region ev fuel region_end q p'))
        → IsRead region_end pos p (after_turn (read_region ev fuel region_end) t)
    after_turn-IsRead fuel region_end pos p (goes_on q p') l t h =
        on_from region_end pos q p p' (read_region ev fuel region_end q p') t.0
          (h q p' (IsGrown-Fits pos q p p' t.0) t.1 (omega (arith, l, t.2)))
    after_turn-IsRead fuel region_end pos p (ends completed p') l t h = cc
    after_turn-IsRead fuel region_end pos p (ends halt_requested p') l t h = t.1
    after_turn-IsRead fuel region_end pos p (ends stuck p') l t h = cc
    after_turn-IsRead fuel region_end pos p (ends (producer_err e) p') l t h = t.1

    at_end-IsRead :
        (region_end pos : ℕ) (p : Producer Family)
        → Fits p
        → pos ≡ region_end
        → IsRead region_end pos p (completed, p)
    at_end-IsRead region_end pos p f e =
        subst (λ q. IsGrown pos q p p) e (same-IsGrown pos p p f refl refl refl)

    read_region-IsRead :
        (fuel region_end pos : ℕ) (p : Producer Family)
        → Fits p
        → pos ≤ region_end
        → region_end ≤ u64_max
        → left region_end pos p ≤ fuel
        → IsRead region_end pos p (read_region ev fuel region_end pos p)
    unfolding read_region
    read_region-IsRead zero region_end pos p f b u l =
        if_split (λ (e : Ending). IsRead region_end pos p (e, p)) (ltb pos region_end) stuck
          completed (λ h. ground (arith, l)) (λ h. at_end-IsRead region_end pos p f (ground arith))
    read_region-IsRead (suc fuel) region_end pos p f b u l =
        if_split (IsRead region_end pos p) (ltb pos region_end)
          (after_turn (read_region ev fuel region_end) (read_turn ev region_end pos p))
          (completed, p)
          (λ h.
            after_turn-IsRead fuel region_end pos p (read_turn ev region_end pos p) l
              (read_turn-IsTurned ev r region_end pos p f (ground arith) u)
              (λ q p' f' b' l'. read_region-IsRead fuel region_end q p' f' b' u l'))
          (λ h. at_end-IsRead region_end pos p f (ground arith))

  -- The loop over regions: it is not stuck, what it sent is a walk over them, and both counters,
  -- which saturate, went up by what was sent and by what was read.
  pub record IsSent (rs : List ByteRange) (p : Producer Family) (r : Ending × Producer Family)
      : Type 0 where
    pub sent_items : List WorkItem
    pub sent_after : r.1.items ≡ p.items ++ sent_items
    pub ended : (is_completed r.0 || is_early r.0) ≡ true
    pub walk : Walk rs (is_completed r.0) sent_items
    pub done : r.1.bytes_done ≡ min (p.bytes_done + sent_bytes sent_items) u64_max
    pub good : r.1.bytes_good_done ≡ min (p.bytes_good_done + good_bytes sent_items) u64_max

  early-IsSent :
      (r : ByteRange) (rs : List ByteRange) (p p' : Producer Family) (e : Ending) (q : ℕ)
      → is_early e ≡ true
      → is_completed e ≡ false
      → IsGrown (snapped r).0 q p p'
      → q ≤ (snapped r).0 + (snapped r).1
      → IsSent (r ∷ rs) p (e, p')
  early-IsSent r rs p p' e q h n g b =
      let tiled = sent_bytes-Tiles (snapped r).0 q g.sent_items g.tiled in
      record {
        sent_items = g.sent_items;
        sent_after = g.sent_after;
        ended = ground arith;
        walk =
            subst (λ c. Walk (r ∷ rs) c g.sent_items) (sym n)
              (walk_part r rs g.sent_items q g.tiled b);
        done = omega (arith, g.done, tiled, g.ahead);
        good = g.good;
      }

  whole-IsSent :
      (r : ByteRange) (rs : List ByteRange) (p p' : Producer Family) (s : Ending × Producer Family)
      → IsGrown (snapped r).0 ((snapped r).0 + (snapped r).1) p p'
      → IsSent rs p' s
      → IsSent (r ∷ rs) p s
  whole-IsSent r rs p p' s g t =
      let tiled =
        sent_bytes-Tiles (snapped r).0 ((snapped r).0 + (snapped r).1) g.sent_items g.tiled in
      record {
        sent_items = g.sent_items ++ t.sent_items;
        sent_after =
            t.sent_after
            ∙ ap (λ is. is ++ t.sent_items) g.sent_after
            ∙ append_assoc p.items g.sent_items t.sent_items;
        ended = t.ended;
        walk = walk_region r rs (is_completed s.0) g.sent_items t.sent_items g.tiled t.walk;
        done = omega (arith, g.done, t.done, tiled, sent_bytes-append g.sent_items t.sent_items);
        good = omega (arith, g.good, t.good, good_bytes-append g.sent_items t.sent_items);
      }

  after_region-IsSent :
      (r : ByteRange) (rs : List ByteRange) (p : Producer Family)
      (rest : Producer Family → Ending × Producer Family) (s : Ending × Producer Family)
      → IsRead ((snapped r).0 + (snapped r).1) (snapped r).0 p s
      → ((p' : Producer Family) → Fits p' → IsSent rs p' (rest p'))
      → IsSent (r ∷ rs) p (after_region rest s)
  after_region-IsSent r rs p rest (completed, p') g h =
      whole-IsSent r rs p p' (rest p') g
        (h p' (IsGrown-Fits (snapped r).0 ((snapped r).0 + (snapped r).1) p p' g))
  after_region-IsSent r rs p rest (halt_requested, p') (q, g, b) h =
      early-IsSent r rs p p' halt_requested q refl refl g b
  after_region-IsSent r rs p rest (stuck, p') g h = absurd g
  after_region-IsSent r rs p rest (producer_err e, p') (q, g, b) h =
      early-IsSent r rs p p' (producer_err e) q refl refl g b

  -- With a reader whose blocks have at least one sector, and regions that begin within u64, the read
  -- loop of a sweep always ends: at the end of the regions, or early by a Stop or an error. What it
  -- sent lies side by side over each region up to where it ended, over all of them if it completed;
  -- and its two counters went up, saturating, by the bytes that were sent and by those that were read.
  pub read_regions-IsSent :
      (ev : SweepEvents Family) (regions : List ByteRange) (p : Producer Family)
      → IsReader ev
      → Fits p
      → All (λ (r : ByteRange). r.0 ≤ u64_max) regions
      → IsSent regions p (read_regions ev regions p)
  unfolding read_regions sent_bytes good_bytes
  read_regions-IsSent ev [] p r f b = record {
    sent_items = [];
    sent_after = sym (append-nil p.items);
    ended = refl;
    walk = walk_end;
    done = omega (arith, f.done);
    good = omega (arith, f.good);
  }
  read_regions-IsSent ev ((pos, size) ∷ regions) p r f b =
      let start = (snap_to_sectors pos size).0 in
      let len = (snap_to_sectors pos size).1 in
      after_region-IsSent (pos, size) regions p (read_regions ev regions)
        (read_region ev (region_fuel len) (start + len) start p)
        (read_region-IsRead ev r (region_fuel len) (start + len) start p f (omega arith)
          (snap-fits pos size b.0) (omega arith))
        (λ p' f'. read_regions-IsSent ev regions p' r f' b.1)
