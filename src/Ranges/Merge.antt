-- ===== src/Ranges/Merge.antt =====
-- `merge_byte_ranges` covers the same bytes by separate, ordered ranges.
use freemkv_engine.Base.{
  ℕ, ◌+◌, ◌≤◌, ◌<◌, ◌≡◌, refl, ap, ◌∙◌, ◌||◌, List, [], ◌∷◌, arith, u64_max, All, dec_lt, lt→ltb,
  ge→ltb,
}
use freemkv_engine.Ranges.{
  ByteRange, insert_range, sort_ranges, merge_into, merge_loop, merge_byte_ranges, in_range,
  covered_by,
}
use freemkv_engine.Ranges.Cut.{Bounded}

covered_by-insert_range :
    (r : ByteRange) (rs : List ByteRange) (x : ℕ)
    → covered_by (insert_range r rs) x ≡ (in_range r x || covered_by rs x)
unfolding insert_range covered_by
covered_by-insert_range r [] x = refl
covered_by-insert_range r (s ∷ rs) x = ground (arith, covered_by-insert_range r rs x)

covered_by-sort_ranges :
    (rs : List ByteRange) (x : ℕ) → covered_by (sort_ranges rs) x ≡ covered_by rs x
unfolding sort_ranges covered_by
covered_by-sort_ranges [] x = refl
covered_by-sort_ranges (r ∷ rs) x =
    covered_by-insert_range r (sort_ranges rs) x
    ∙ ap (λ t. in_range r x || t) (covered_by-sort_ranges rs x)

-- Ordered by their starts, from `lo` on, each range within u64.
abbrev pub StartsFrom : ℕ → List ByteRange → Type 0
StartsFrom lo [] = Unit {0}
StartsFrom lo ((p, n) ∷ rs) = (lo ≤ p) × (p + n ≤ u64_max) × StartsFrom p rs

insert_range-StartsFrom :
    (lo p n : ℕ) (rs : List ByteRange)
    → lo ≤ p
    → p + n ≤ u64_max
    → StartsFrom lo rs
    → StartsFrom lo (insert_range (p, n) rs)
unfolding insert_range
insert_range-StartsFrom lo p n [] h b s = (h, b, tt)
insert_range-StartsFrom lo p n ((q, m) ∷ rs) h b s =
    ground (arith, insert_range-StartsFrom q p n rs)

sort_ranges-StartsFrom : (rs : List ByteRange) → All Bounded rs → StartsFrom 0 (sort_ranges rs)
unfolding sort_ranges
sort_ranges-StartsFrom [] h = tt
sort_ranges-StartsFrom ((p, n) ∷ rs) h =
    insert_range-StartsFrom 0 p n (sort_ranges rs) (omega arith) h.0 (sort_ranges-StartsFrom rs h.1)

-- Ordered, not empty, and apart: no range begins before the byte after the end of the one before.
abbrev pub IsMerged : ℕ → List ByteRange → Type 0
IsMerged lo [] = Unit {0}
IsMerged lo ((p, n) ∷ rs) = (lo ≤ p) × (0 < n) × (p + n ≤ u64_max) × IsMerged (p + n + 1) rs

-- The last range of the list starts at or before `p`.
abbrev LastStarts : List ByteRange → ℕ → Type 0
LastStarts [] p = Unit {0}
LastStarts ((lp, ln) ∷ []) p = lp ≤ p
LastStarts (r ∷ s ∷ out) p = LastStarts (s ∷ out) p

LastStarts-le : (out : List ByteRange) (p q : ℕ) → p ≤ q → LastStarts out p → LastStarts out q
LastStarts-le [] p q h l = tt
LastStarts-le (r ∷ []) p q h l = omega arith
LastStarts-le (r ∷ s ∷ out) p q h l = LastStarts-le (s ∷ out) p q h l

LastStarts-first :
    (lo : ℕ) (r : ByteRange) (out : List ByteRange) (p : ℕ)
    → IsMerged lo (r ∷ out)
    → LastStarts (r ∷ out) p
    → lo ≤ p
LastStarts-first lo r [] p m l = omega arith
LastStarts-first lo r (s ∷ out) p m l =
    omega (arith, LastStarts-first (r.0 + r.1 + 1) s out p m.3 l)

module _ (p n : ℕ) (positive : 0 < n) (bounded : p + n ≤ u64_max) where
  merge_into-LastStarts :
      (out : List ByteRange) → LastStarts out p → LastStarts (merge_into out (p, n)) p
  unfolding merge_into
  merge_into-LastStarts [] l = omega arith
  merge_into-LastStarts (r ∷ []) l = ground arith
  merge_into-LastStarts (r ∷ s ∷ []) l = ground arith
  merge_into-LastStarts (r ∷ s ∷ t ∷ out) l = merge_into-LastStarts (s ∷ t ∷ out) l

  merge_into-IsMerged :
      (lo : ℕ) (out : List ByteRange)
      → lo ≤ p
      → IsMerged lo out
      → LastStarts out p
      → IsMerged lo (merge_into out (p, n))
  unfolding merge_into
  merge_into-IsMerged lo [] h m l = (h, positive, bounded, tt)
  merge_into-IsMerged lo (r ∷ []) h m l = ground arith
  merge_into-IsMerged lo (r ∷ s ∷ out) h m l = (
    m.0,
    m.1,
    m.2,
    merge_into-IsMerged (r.0 + r.1 + 1) (s ∷ out) (LastStarts-first (r.0 + r.1 + 1) s out p m.3 l)
        m.3 l,
  )

  covered_by-merge_into :
      (lo : ℕ) (out : List ByteRange) (x : ℕ)
      → IsMerged lo out
      → LastStarts out p
      → covered_by (merge_into out (p, n)) x ≡ (covered_by out x || in_range (p, n) x)
  unfolding merge_into covered_by
  covered_by-merge_into lo [] x m l = ground arith
  covered_by-merge_into lo (r ∷ []) x m l = ground arith
  covered_by-merge_into lo (r ∷ s ∷ out) x m l =
      ground (arith, covered_by-merge_into (r.0 + r.1 + 1) (s ∷ out) x m.3 l)

-- `merge_loop` keeps the ranges separate, and covers what `out` and the ranges cover.
merge_loop-IsMerged :
    (out rs : List ByteRange) (lo : ℕ)
    → IsMerged 0 out
    → LastStarts out lo
    → StartsFrom lo rs
    → IsMerged 0 (merge_loop out rs)
unfolding merge_loop
merge_loop-IsMerged out [] lo m l s = m
merge_loop-IsMerged out ((p, n) ∷ rs) lo m l s =
    let l' = LastStarts-le out lo p s.0 l in
    elim (dec_lt 0 n) [
      | yes h ↦ rw (lt→ltb 0 n h) (
          merge_loop-IsMerged (merge_into out (p, n)) rs p
            (merge_into-IsMerged p n h s.1 0 out (omega arith) m l')
            (merge_into-LastStarts p n h s.1 out l') s.2)
      | no h ↦ rw (ge→ltb 0 n (omega arith)) (merge_loop-IsMerged out rs p m l' s.2)
    ]

covered_by-merge_loop :
    (out rs : List ByteRange) (lo x : ℕ)
    → IsMerged 0 out
    → LastStarts out lo
    → StartsFrom lo rs
    → covered_by (merge_loop out rs) x ≡ (covered_by out x || covered_by rs x)
unfolding merge_loop
covered_by-merge_loop out [] lo x m l s = unfold covered_by in ground arith
covered_by-merge_loop out ((p, n) ∷ rs) lo x m l s =
    let l' = LastStarts-le out lo p s.0 l in
    elim (dec_lt 0 n) [
      | yes h ↦ rw (lt→ltb 0 n h) (
          covered_by-merge_loop (merge_into out (p, n)) rs p x
            (merge_into-IsMerged p n h s.1 0 out (omega arith) m l')
            (merge_into-LastStarts p n h s.1 out l') s.2
          ∙ rw (covered_by-merge_into p n h s.1 0 out x m l') (unfold covered_by in ground arith))
      | no h ↦
          rw (ge→ltb 0 n (omega arith))
            (covered_by-merge_loop out rs p x m l' s.2 ∙ unfold covered_by in ground arith)
    ]

-- Of ranges within u64, the merged ranges are in order, not empty, and no two of them overlap or touch.
pub merge_byte_ranges-IsMerged :
    (rs : List ByteRange) → All Bounded rs → IsMerged 0 (merge_byte_ranges rs)
unfolding merge_byte_ranges
merge_byte_ranges-IsMerged rs h =
    merge_loop-IsMerged [] (sort_ranges rs) 0 tt tt (sort_ranges-StartsFrom rs h)

-- Merging keeps the set of bytes that the ranges cover, if they end within u64.
pub covered_by-merge_byte_ranges :
    (rs : List ByteRange) (x : ℕ)
    → All Bounded rs
    → covered_by (merge_byte_ranges rs) x ≡ covered_by rs x
unfolding merge_byte_ranges covered_by
covered_by-merge_byte_ranges rs x h =
    covered_by-merge_loop [] (sort_ranges rs) 0 x tt tt (sort_ranges-StartsFrom rs h)
    ∙ covered_by-sort_ranges rs x
