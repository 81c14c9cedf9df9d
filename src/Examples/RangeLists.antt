-- ===== src/Examples/RangeLists.antt =====
-- `merge_byte_ranges`, `intersect` and `subtract` (src/recovery/mapfile.rs) at concrete lists.
use freemkv_engine.Base.{◌≡◌, refl, not, ◌&&◌, List, [], ◌∷◌, arith}
use freemkv_engine.Ranges.{ByteRange, merge_byte_ranges, intersect, subtract, covered_by}
use freemkv_engine.Ranges.Merge.{IsMerged, merge_byte_ranges-IsMerged, covered_by-merge_byte_ranges}
use freemkv_engine.Ranges.Cut.{covered_by-intersect, covered_by-subtract}

abbrev jumbled : List ByteRange
jumbled = (40, 10) ∷ (0, 8) ∷ (8, 4) ∷ (45, 20) ∷ (30, 0) ∷ []

abbrev ordered : List ByteRange
ordered = (0, 10) ∷ (20, 10) ∷ []

merge-jumbled : merge_byte_ranges jumbled ≡ (0, 12) ∷ (40, 25) ∷ []
unfolding merge_byte_ranges
merge-jumbled = refl

merge_byte_ranges-IsMerged_example : IsMerged 0 (merge_byte_ranges jumbled)
merge_byte_ranges-IsMerged_example = merge_byte_ranges-IsMerged jumbled (omega arith)

covered_by-merge_byte_ranges_example :
    covered_by (merge_byte_ranges jumbled) 50 ≡ covered_by jumbled 50
covered_by-merge_byte_ranges_example = covered_by-merge_byte_ranges jumbled 50 (omega arith)

intersect-ordered : intersect ordered ((5, 20) ∷ []) ≡ (5, 5) ∷ (20, 5) ∷ []
unfolding intersect
intersect-ordered = refl

covered_by-intersect_example :
    covered_by (intersect ordered ((5, 20) ∷ [])) 7
    ≡ (covered_by ordered 7 && covered_by ((5, 20) ∷ []) 7)
covered_by-intersect_example =
    covered_by-intersect 0 0 ordered ((5, 20) ∷ []) 7 (omega arith) (omega arith)

subtract-ordered : subtract ordered ((5, 20) ∷ []) ≡ (0, 5) ∷ (25, 5) ∷ []
unfolding subtract
subtract-ordered = refl

covered_by-subtract_example :
    covered_by (subtract ordered ((5, 20) ∷ [])) 7
    ≡ (covered_by ordered 7 && not (covered_by ((5, 20) ∷ []) 7))
covered_by-subtract_example =
    covered_by-subtract ordered ((5, 20) ∷ []) 7 (omega arith) (omega arith)
