-- ===== src/Ranges.antt =====
-- Byte-range lists of src/recovery/mapfile.rs: `merge_byte_ranges`, `intersect` and `subtract`.
pub mod Merge
pub mod Cut
pub mod Fixed
use freemkv_engine.Base.{
  ℕ, zero, suc, ◌+◌, ◌-◌, Bool, true, false, ◌&&◌, ◌||◌, List, [], ◌∷◌, ◌++◌, foldl, min, max, ltb,
  leb, ◌==◌, if◌then◌else◌, saturating_add, length,
}

-- A byte range (pos, size).
abbrev pub ByteRange : Type 0
ByteRange = ℕ × ℕ

abbrev pub range_end : ByteRange → ℕ
range_end (p, n) = saturating_add p n

-- The derived order of pairs.
abbrev pub range_le : ByteRange → ByteRange → Bool
range_le (p, n) (q, m) = ltb p q || (p == q && leb n m)

-- `ranges.sort_unstable()`: equal pairs cannot be told apart, so any sort gives this list.
unfoldable pub insert_range : ByteRange → List ByteRange → List ByteRange
insert_range r [] = r ∷ []
insert_range r (s ∷ rs) = if range_le r s then r ∷ s ∷ rs else s ∷ insert_range r rs

unfoldable pub sort_ranges : List ByteRange → List ByteRange
unfolding insert_range
sort_ranges [] = []
sort_ranges (r ∷ rs) = insert_range r (sort_ranges rs)

-- One round of the loop of `merge_byte_ranges`, on a range that is not empty: the last range is
-- widened, or the range is pushed.
unfoldable pub merge_into : List ByteRange → ByteRange → List ByteRange
merge_into [] r = r ∷ []
merge_into ((lp, ln) ∷ []) (p, n) =
    if leb p (saturating_add lp ln)
    then (lp, max ln (saturating_add p n - lp)) ∷ []
    else (lp, ln) ∷ (p, n) ∷ []
merge_into (x ∷ y ∷ out) r = x ∷ merge_into (y ∷ out) r

-- The loop, with its filter `r.1 > 0`.
unfoldable pub merge_loop : List ByteRange → List ByteRange → List ByteRange
unfolding merge_into
merge_loop out [] = out
merge_loop out (r ∷ rs) = merge_loop (if ltb 0 r.1 then merge_into out r else out) rs

-- `merge_byte_ranges`.
unfoldable pub merge_byte_ranges : List ByteRange → List ByteRange
unfolding sort_ranges merge_loop
merge_byte_ranges ranges = merge_loop [] (sort_ranges ranges)

-- What one round of `intersect` pushes: the part that two ranges share.
unfoldable pub overlap : ByteRange → ByteRange → List ByteRange
overlap (p, n) (sp, sn) =
    let a = max p sp in
    let b = min (saturating_add p n) (saturating_add sp sn) in
    if ltb a b then (a, b - a) ∷ [] else []

-- `intersect`: the two indices are the two rests; each round drops the head of one.
unfoldable pub intersect_loop : ℕ → List ByteRange → List ByteRange → List ByteRange
unfolding overlap
intersect_loop zero ranges scope = []
intersect_loop (suc fuel) [] scope = []
intersect_loop (suc fuel) (r ∷ ranges) [] = []
intersect_loop (suc fuel) (r ∷ ranges) (s ∷ scope) =
    let left = intersect_loop fuel ranges (s ∷ scope) in
    let right = intersect_loop fuel (r ∷ ranges) scope in
    overlap r s ++ (if leb (range_end r) (range_end s) then left else right)

unfoldable pub intersect : List ByteRange → List ByteRange → List ByteRange
unfolding intersect_loop
intersect ranges scope = intersect_loop (length ranges + length scope) ranges scope

-- The closure of `subtract`: what is left of one range beside one cut.
unfoldable pub cut_range : ByteRange → ByteRange → List ByteRange
cut_range (cp, cn) (p, n) =
    let end = saturating_add p n in
    let cend = saturating_add cp cn in
    (if ltb p (min cp end) then (p, min cp end - p) ∷ [] else [])
    ++ (if ltb (max cend p) end then (max cend p, end - max cend p) ∷ [] else [])

unfoldable pub cut_all : ByteRange → List ByteRange → List ByteRange
unfolding cut_range
cut_all c [] = []
cut_all c (r ∷ rs) = cut_range c r ++ cut_all c rs

-- `subtract`.
unfoldable pub subtract : List ByteRange → List ByteRange → List ByteRange
unfolding cut_all
subtract ranges [] = ranges
subtract ranges (c ∷ cut) = subtract (cut_all c ranges) cut

-- The meaning of a list of ranges: the bytes that it covers.
abbrev pub in_range : ByteRange → ℕ → Bool
in_range (p, n) x = leb p x && ltb x (p + n)

unfoldable pub covered_by : List ByteRange → ℕ → Bool
covered_by [] x = false
covered_by (r ∷ rs) x = in_range r x || covered_by rs x
