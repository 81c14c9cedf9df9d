-- ===== src/Producer/Untried.antt =====
-- A sweep (src/recovery/mod.rs) leaves nothing untried of what it is to read.
use freemkv_engine.Base.{
  ℕ, zero, suc, ◌+◌, ◌-◌, ◌≤◌, ◌<◌, ◌≡◌, Bool, true, not, ◌&&◌, Option, none, some, List, [], ◌∷◌,
  arith, ltb, leb, if◌then◌else◌, min, max, u64_max, All, length, if_split, if_cases,
}
use freemkv_engine.Ranges.{
  ByteRange, covered_by, overlap, intersect_loop, intersect, range_end, subtract, cut_all,
}
use freemkv_engine.Ranges.Cut.{
  Bounded, IsOrdered, covered_by-intersect, covered_by-subtract, cut_all-Bounded, All-append,
}
use freemkv_engine.Mapfile.Status.{
  SectorStatus, non_tried, non_trimmed, non_scraped, unreadable, finished, contains,
}
use freemkv_engine.Mapfile.Entry.{MapEntry}
use freemkv_engine.Mapfile.Runs.{status_at, IsRuns}
use freemkv_engine.Mapfile.State.{ranges_with}
use freemkv_engine.Delivery.{went_on}
use freemkv_engine.Delivery.Statuses.{is_settled}
use freemkv_engine.Sweep.{SweepSink, map_of}
use freemkv_engine.Patch.{snap_to_sectors}
use freemkv_engine.Producer.{
  SweepEvents, Producer, completed, read_regions, within_scope, regions_of,
}
use freemkv_engine.Producer.Turns.{IsReader, Fits}
use freemkv_engine.Producer.Settled.{snapped_cover, SinkEvents, consume, sweep-is_settled}

-- The untried entries cover the untried bytes.
ranges_with-covers :
    (es : List MapEntry) (x : ℕ)
    → status_at es x ≡ some non_tried
    → covered_by (ranges_with es (non_tried ∷ [])) x ≡ true
unfolding status_at ranges_with covered_by contains
ranges_with-covers [] x h = cc
ranges_with-covers (e ∷ es) x h =
    elim e.status
        as (λ st.
          (if leb e.pos x && ltb x (e.pos + e.size) then some st else status_at es x)
            ≡ some non_tried
          → covered_by (ranges_with (record e { status = st } ∷ es) (non_tried ∷ [])) x ≡ true) [
            | non_tried ↦ λ h. ground (arith, ranges_with-covers es x)
            | non_trimmed ↦ λ h. ground (arith, ranges_with-covers es x)
            | non_scraped ↦ λ h. ground (arith, ranges_with-covers es x)
            | unreadable ↦ λ h. ground (arith, ranges_with-covers es x)
            | finished ↦ λ h. ground (arith, ranges_with-covers es x)
          ]
      h

lower-IsOrdered : (lo hi : ℕ) (rs : List ByteRange) → lo ≤ hi → IsOrdered hi rs → IsOrdered lo rs
lower-IsOrdered lo hi [] h o = tt
lower-IsOrdered lo hi (r ∷ rs) h o = (omega (arith, o.0), o.1, o.2)

ranges_with-IsOrdered :
    (lo : ℕ) (es : List MapEntry) (statuses : List SectorStatus)
    → IsRuns lo es
    → IsOrdered lo (ranges_with es statuses)
unfolding ranges_with
ranges_with-IsOrdered lo [] statuses r = tt
ranges_with-IsOrdered lo (e ∷ es) statuses (l, s, a, r) =
    let others = ranges_with-IsOrdered (e.pos + e.size) es statuses r in
    if_cases (IsOrdered lo) (contains statuses e.status) ((e.pos, e.size) ∷ ranges_with es statuses)
      (ranges_with es statuses) (l, omega (arith, s), others)
      (lower-IsOrdered lo (e.pos + e.size) (ranges_with es statuses) (omega (arith, l)) others)

IsOrdered-Bounded : (lo : ℕ) (rs : List ByteRange) → IsOrdered lo rs → All Bounded rs
IsOrdered-Bounded lo [] o = tt
IsOrdered-Bounded lo (r ∷ rs) o = (omega (arith, o.1), IsOrdered-Bounded (r.0 + r.1) rs o.2)

overlap-Bounded : (r s : ByteRange) → All Bounded (overlap r s)
unfolding overlap
overlap-Bounded (p, n) (sp, sn) =
    let a : ℕ = max p sp in
    let b : ℕ = min (min (p + n) u64_max) (min (sp + sn) u64_max) in
    if_split (All Bounded) (ltb a b) ((a, b - a) ∷ []) [] (λ h. (ground arith, tt)) (λ h. tt)

intersect_loop-Bounded :
    (fuel : ℕ) (ranges scope : List ByteRange) → All Bounded (intersect_loop fuel ranges scope)
unfolding intersect_loop
intersect_loop-Bounded zero ranges scope = tt
intersect_loop-Bounded (suc fuel) [] scope = tt
intersect_loop-Bounded (suc fuel) (r ∷ ranges) [] = tt
intersect_loop-Bounded (suc fuel) (r ∷ ranges) (s ∷ scope) =
    let left = intersect_loop fuel ranges (s ∷ scope) in
    let right = intersect_loop fuel (r ∷ ranges) scope in
    All-append (overlap r s) (if leb (range_end r) (range_end s) then left else right)
      (overlap-Bounded r s)
      (if_cases (All Bounded) (leb (range_end r) (range_end s)) left right
        (intersect_loop-Bounded fuel ranges (s ∷ scope))
        (intersect_loop-Bounded fuel (r ∷ ranges) scope))

subtract-Bounded :
    (ranges cut : List ByteRange) → All Bounded ranges → All Bounded (subtract ranges cut)
unfolding subtract
subtract-Bounded ranges [] h = h
subtract-Bounded ranges (c ∷ cut) h =
    subtract-Bounded (cut_all c ranges) cut (cut_all-Bounded c ranges h)

-- The bytes of a scope, and a scope in order.
abbrev pub scope_covers : Option (List ByteRange) → ℕ → Bool
scope_covers none x = true
scope_covers (some scope) x = covered_by scope x

abbrev pub ScopeIsOrdered : Option (List ByteRange) → Type 0
ScopeIsOrdered none = Unit {0}
ScopeIsOrdered (some scope) = IsOrdered 0 scope

within_scope-Bounded :
    (scope : Option (List ByteRange)) (rs : List ByteRange)
    → IsOrdered 0 rs
    → All Bounded (within_scope scope rs)
within_scope-Bounded none rs o = IsOrdered-Bounded 0 rs o
within_scope-Bounded (some scope) rs o =
    unfold intersect in intersect_loop-Bounded (length rs + length scope) rs scope

within_scope-covers :
    (scope : Option (List ByteRange)) (rs : List ByteRange) (x : ℕ)
    → IsOrdered 0 rs
    → ScopeIsOrdered scope
    → covered_by (within_scope scope rs) x ≡ (covered_by rs x && scope_covers scope x)
within_scope-covers none rs x o s = ground arith
within_scope-covers (some scope) rs x o s = covered_by-intersect 0 0 rs scope x o s

snapped_covers :
    (rs : List ByteRange) (x : ℕ)
    → x < 18446744073709549568
    → covered_by rs x ≡ true
    → snapped_cover rs x ≡ true
unfolding covered_by snapped_cover snap_to_sectors
snapped_covers [] x b h = cc
snapped_covers ((p, n) ∷ rs) x b h = ground (arith, snapped_covers rs x b)

starts-in : (rs : List ByteRange) → All Bounded rs → All (λ (r : ByteRange). r.0 ≤ u64_max) rs
starts-in [] b = tt
starts-in (r ∷ rs) b = (omega (arith, b.0), starts-in rs b.1)

module _ {Family : Type 0} where
  -- A sweep over the regions of its mapfile that completed, and whose items the consumer all applied,
  -- with a scope in order or none, from a map of maximal runs: every untried byte of the scope that
  -- was not to be skipped, within the last whole sector of u64, is now finished or to be trimmed.
  pub sweep-tries :
      (ev : SweepEvents Family) (p : Producer Family) (events : ℕ → SinkEvents) (s : SweepSink)
      (scope : Option (List ByteRange)) (skip : List ByteRange) (x : ℕ)
      → IsReader ev
      → Fits p
      → p.items ≡ []
      → IsRuns 0 (map_of s).entries
      → ScopeIsOrdered scope
      → All Bounded skip
      → (read_regions ev (regions_of (map_of s) scope skip) p).0 ≡ completed
      → went_on (consume events (read_regions ev (regions_of (map_of s) scope skip) p).1.items s).0
        ≡ true
      → status_at (map_of s).entries x ≡ some non_tried
      → (scope_covers scope x && not (covered_by skip x)) ≡ true
      → x < 18446744073709549568
      → let items = (read_regions ev (regions_of (map_of s) scope skip) p).1.items in
        is_settled (status_at (map_of (consume events items s).1).entries x) ≡ true
  unfolding regions_of
  sweep-tries ev p events s scope skip x r f empty runs o b h w u i l =
      let untried = ranges_with (map_of s).entries (non_tried ∷ []) in
      let ordered = ranges_with-IsOrdered 0 (map_of s).entries (non_tried ∷ []) runs in
      let regions = subtract (within_scope scope untried) skip in
      let bounded = within_scope-Bounded scope untried ordered in
      let covers = covered_by-subtract (within_scope scope untried) skip x bounded b in
      (sweep-is_settled ev regions p events s x r f
          (starts-in regions (subtract-Bounded (within_scope scope untried) skip bounded)) empty
          runs h w).0
        (snapped_covers regions x l (
          ground (
            arith,
            covers,
            within_scope-covers scope untried x ordered o,
            ranges_with-covers (map_of s).entries x u,
          )))
