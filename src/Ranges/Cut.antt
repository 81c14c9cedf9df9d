-- ===== src/Ranges/Cut.antt =====
-- `intersect` and `subtract` as operations on sets of bytes.
use freemkv_engine.Base.{
  ℕ, zero, suc, ◌+◌, ◌≤◌, ◌<◌, ◌≡◌, refl, ◌∙◌, Bool, false, not, ◌&&◌, ◌||◌, List, [], ◌∷◌, ◌++◌,
  arith, leb, u64_max, length, All, Bool-cases, inl, inr,
}
use freemkv_engine.Ranges.{
  ByteRange, range_end, covered_by, in_range, cut_range, cut_all, subtract, overlap, intersect_loop,
  intersect,
}

-- The range ends within u64.
abbrev pub Bounded : ByteRange → Type 0
Bounded (p, n) = p + n ≤ u64_max

pub covered_by-append :
    (rs ss : List ByteRange) (x : ℕ)
    → covered_by (rs ++ ss) x ≡ (covered_by rs x || covered_by ss x)
unfolding covered_by
covered_by-append [] ss x = refl
covered_by-append (r ∷ rs) ss x = ground (arith, covered_by-append rs ss x)

covered_by-cut_range :
    (c r : ByteRange) (x : ℕ)
    → Bounded c
    → Bounded r
    → covered_by (cut_range c r) x ≡ (in_range r x && not (in_range c x))
unfolding covered_by cut_range
covered_by-cut_range (cp, cn) (p, n) x hc hr = ground arith

covered_by-cut_all :
    (c : ByteRange) (rs : List ByteRange) (x : ℕ)
    → Bounded c
    → All Bounded rs
    → covered_by (cut_all c rs) x ≡ (covered_by rs x && not (in_range c x))
unfolding covered_by cut_all
covered_by-cut_all c [] x hc h = refl
covered_by-cut_all c (r ∷ rs) x hc h =
    rw (covered_by-append (cut_range c r) (cut_all c rs) x)
      (rw (covered_by-cut_range c r x hc h.0, covered_by-cut_all c rs x hc h.1) (ground arith))

cut_range-Bounded : (c r : ByteRange) → Bounded r → All Bounded (cut_range c r)
unfolding cut_range
cut_range-Bounded (cp, cn) (p, n) h = ground arith

pub All-append : (rs ss : List ByteRange) → All Bounded rs → All Bounded ss → All Bounded (rs ++ ss)
All-append [] ss h k = k
All-append (r ∷ rs) ss h k = (h.0, All-append rs ss h.1 k)

pub cut_all-Bounded :
    (c : ByteRange) (rs : List ByteRange) → All Bounded rs → All Bounded (cut_all c rs)
unfolding cut_all
cut_all-Bounded c [] h = tt
cut_all-Bounded c (r ∷ rs) h =
    All-append (cut_range c r) (cut_all c rs) (cut_range-Bounded c r h.0) (cut_all-Bounded c rs h.1)

-- `subtract` leaves exactly the bytes of its first list that no range of the second covers, if all
-- ranges end within u64.
pub covered_by-subtract :
    (ranges cut : List ByteRange) (x : ℕ)
    → All Bounded ranges
    → All Bounded cut
    → covered_by (subtract ranges cut) x ≡ (covered_by ranges x && not (covered_by cut x))
unfolding subtract
covered_by-subtract ranges [] x h k = unfold covered_by in ground arith
covered_by-subtract ranges (c ∷ cut) x h k =
    covered_by-subtract (cut_all c ranges) cut x (cut_all-Bounded c ranges h) k.1
    ∙ rw (covered_by-cut_all c ranges x k.0 h) (unfold covered_by in ground arith)

-- Ranges in order that do not overlap, from byte `lo` on.
abbrev pub IsOrdered : ℕ → List ByteRange → Type 0
IsOrdered lo [] = Unit {0}
IsOrdered lo ((p, n) ∷ rs) = (lo ≤ p) × (p + n ≤ u64_max) × IsOrdered (p + n) rs

covered_by_below :
    (lo : ℕ) (rs : List ByteRange) (x : ℕ) → IsOrdered lo rs → x < lo → covered_by rs x ≡ false
unfolding covered_by
covered_by_below lo [] x h k = refl
covered_by_below lo ((p, n) ∷ rs) x h k = ground (arith, covered_by_below (p + n) rs x h.2)

covered_by-overlap :
    (r s : ByteRange) (x : ℕ)
    → Bounded r
    → Bounded s
    → covered_by (overlap r s) x ≡ (in_range r x && in_range s x)
unfolding overlap covered_by
covered_by-overlap (p, n) (sp, sn) x h k = ground arith

-- A byte of the range that ends first lies in no later range of the other list.
ends_first :
    (r s : ByteRange) (scope : List ByteRange) (x : ℕ)
    → Bounded r
    → r.0 + r.1 ≤ s.0 + s.1
    → IsOrdered (s.0 + s.1) scope
    → in_range r x && covered_by scope x ≡ false
ends_first r s scope x h le k = ground (arith, covered_by_below (s.0 + s.1) scope x k)

distribute_left :
    (a b c d : Bool) → a && d ≡ false → (a && b) || (c && (b || d)) ≡ (a || c) && (b || d)
distribute_left a b c d h = ground arith

distribute_right :
    (a b c d : Bool) → b && c ≡ false → (a && b) || ((a || c) && d) ≡ (a || c) && (b || d)
distribute_right a b c d h = ground arith

covered_by-intersect_loop :
    (fuel lo hi : ℕ) (ranges scope : List ByteRange) (x : ℕ)
    → length ranges + length scope ≤ fuel
    → IsOrdered lo ranges
    → IsOrdered hi scope
    → covered_by (intersect_loop fuel ranges scope) x ≡ (covered_by ranges x && covered_by scope x)
unfolding intersect_loop covered_by
covered_by-intersect_loop zero lo hi [] scope x f h k = refl
covered_by-intersect_loop zero lo hi (r ∷ ranges) scope x f h k = absurd (omega arith)
covered_by-intersect_loop (suc fuel) lo hi [] scope x f h k = refl
covered_by-intersect_loop (suc fuel) lo hi (r ∷ ranges) [] x f h k = ground arith
covered_by-intersect_loop (suc fuel) lo hi (r ∷ ranges) (s ∷ scope) x f h k =
    let whole = covered_by-overlap r s x h.1 k.1 in
    elim (Bool-cases (leb (range_end r) (range_end s))) [
      | inl t ↦
          rw (t, covered_by-append (overlap r s), whole)
            (rw
              (covered_by-intersect_loop fuel (r.0 + r.1) hi ranges (s ∷ scope) x (omega arith) h.2
                k)
              (distribute_left (in_range r x) (in_range s x) (covered_by ranges x)
                (covered_by scope x) (ends_first r s scope x h.1 (ground arith) k.2)))
      | inr t ↦
          rw (t, covered_by-append (overlap r s), whole)
            (rw
              (covered_by-intersect_loop fuel lo (s.0 + s.1) (r ∷ ranges) scope x (omega arith) h
                k.2)
              (distribute_right (in_range r x) (in_range s x) (covered_by ranges x)
                (covered_by scope x) (ends_first s r ranges x k.1 (ground arith) h.2)))
    ]

-- `intersect` covers exactly the bytes that both lists cover, if each list is in order and without
-- overlaps.
pub covered_by-intersect :
    (lo hi : ℕ) (ranges scope : List ByteRange) (x : ℕ)
    → IsOrdered lo ranges
    → IsOrdered hi scope
    → covered_by (intersect ranges scope) x ≡ (covered_by ranges x && covered_by scope x)
unfolding intersect
covered_by-intersect lo hi ranges scope x h k =
    covered_by-intersect_loop (length ranges + length scope) lo hi ranges scope x (omega arith) h k
