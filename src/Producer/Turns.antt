-- ===== src/Producer/Turns.antt =====
-- One turn of a sweep's read loop (`sweep_linked` of src/recovery/mod.rs): what it sends, how far it
-- reads on, and what it spends.
use freemkv_engine.Base.{
  ℕ, ◌+◌, ◌-◌, ◌≤◌, ◌<◌, ◌≡◌, refl, sym, ap, ◌∙◌, Bool, true, List, [], ◌∷◌, ◌++◌, arith, ◌==◌,
  length, min, u64_max, append_assoc, append-nil,
}
use freemkv_engine.Sweep.{WorkItem, good, skip_fill, gap_fill, stats_request}
use freemkv_engine.Producer.{SweepEvents, Producer}

abbrev pub item_size : WorkItem → ℕ
item_size (good pos buf) = length buf
item_size (skip_fill pos len) = len
item_size (gap_fill pos len) = len
item_size stats_request = 0

abbrev pub begins : ℕ → WorkItem → Bool
begins p (good pos buf) = p == pos
begins p (skip_fill pos len) = p == pos
begins p (gap_fill pos len) = p == pos
begins p stats_request = true

-- The items lie side by side, from a position up to another.
abbrev pub Tiles : ℕ → List WorkItem → ℕ → Type 0
Tiles p [] q = p ≡ q
Tiles p (i ∷ is) q = (begins p i ≡ true) × Tiles (p + item_size i) is q

pub Tiles-append :
    (p q r : ℕ) (is js : List WorkItem) → Tiles p is q → Tiles q js r → Tiles p (is ++ js) r
Tiles-append p q r [] js t u = rw t u
Tiles-append p q r (i ∷ is) js t u = (t.0, Tiles-append (p + item_size i) q r is js t.1 u)

abbrev pub good_size : WorkItem → ℕ
good_size (good pos buf) = length buf
good_size _ = 0

-- The bytes that were read, of all items.
unfoldable pub good_bytes : List WorkItem → ℕ
good_bytes [] = 0
good_bytes (i ∷ is) = good_size i + good_bytes is

pub good_bytes-append :
    (is js : List WorkItem) → good_bytes (is ++ js) ≡ good_bytes is + good_bytes js
unfolding good_bytes
good_bytes-append [] js = omega arith
good_bytes-append (i ∷ is) js = omega (arith, good_bytes-append is js)

-- What the reader of a sweep promises: a block has at least one sector, and the end of one inside a
-- region is moved back, to after its first sector at most.
pub record IsReader {Family : Type 0} (ev : SweepEvents Family) : Type 0 where
  pub batch_positive : 0 < ev.batch
  pub moves_back :
      (first end : ℕ)
      → first < end
      → (first < ev.unit_block_end first end) × (ev.unit_block_end first end ≤ end)

module _ {Family : Type 0} where
  pub record Fits (p : Producer Family) : Type 0 where
    pub done : p.bytes_done ≤ u64_max
    pub good : p.bytes_good_done ≤ u64_max

  -- From one state to a later one, the items that were sent lie side by side, and the two counters,
  -- which saturate, went up by their bytes and by those that were read.
  pub record IsGrown (pos q : ℕ) (p p' : Producer Family) : Type 0 where
    pub sent_items : List WorkItem
    pub sent_after : p'.items ≡ p.items ++ sent_items
    pub tiled : Tiles pos sent_items q
    pub ahead : pos ≤ q
    pub done : p'.bytes_done ≡ min (p.bytes_done + (q - pos)) u64_max
    pub good : p'.bytes_good_done ≡ min (p.bytes_good_done + good_bytes sent_items) u64_max

  pub same-IsGrown :
      (pos : ℕ) (p p' : Producer Family)
      → Fits p
      → p'.items ≡ p.items
      → p'.bytes_done ≡ p.bytes_done
      → p'.bytes_good_done ≡ p.bytes_good_done
      → IsGrown pos pos p p'
  unfolding good_bytes
  same-IsGrown pos p p' f i d g = record {
    sent_items = [];
    sent_after = i ∙ sym (append-nil p.items);
    tiled = refl;
    ahead = omega arith;
    done = omega (arith, f.done);
    good = omega (arith, f.good);
  }

  pub IsGrown-append :
      (pos q r : ℕ) (p p' p'' : Producer Family)
      → IsGrown pos q p p'
      → IsGrown q r p' p''
      → IsGrown pos r p p''
  IsGrown-append pos q r p p' p'' g h = record {
    sent_items = g.sent_items ++ h.sent_items;
    sent_after =
        h.sent_after
        ∙ ap (λ is. is ++ h.sent_items) g.sent_after
        ∙ append_assoc p.items g.sent_items h.sent_items;
    tiled = Tiles-append pos q r g.sent_items h.sent_items g.tiled h.tiled;
    ahead = omega (arith, g.ahead, h.ahead);
    done = omega (arith, g.done, h.done, g.ahead, h.ahead);
    good = omega (arith, g.good, h.good, good_bytes-append g.sent_items h.sent_items);
  }

  -- One more item, and its bytes counted.
  pub one-IsGrown :
      (pos q : ℕ) (item : WorkItem) (p p' : Producer Family)
      → Fits p
      → begins pos item ≡ true
      → q ≡ pos + item_size item
      → p'.items ≡ p.items ++ item ∷ []
      → p'.bytes_done ≡ min (p.bytes_done + item_size item) u64_max
      → p'.bytes_good_done ≡ min (p.bytes_good_done + good_size item) u64_max
      → IsGrown pos q p p'
  unfolding good_bytes
  one-IsGrown pos q item p p' f b e i d g = record {
    sent_items = item ∷ [];
    sent_after = i;
    tiled = (b, sym e);
    ahead = omega arith;
    done = omega arith;
    good = omega arith;
  }

  pub IsGrown-Fits : (pos q : ℕ) (p p' : Producer Family) → IsGrown pos q p p' → Fits p'
  IsGrown-Fits pos q p p' g = record { done = omega (arith, g.done); good = omega (arith, g.good) }
