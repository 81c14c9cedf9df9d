-- ===== src/Ranges/Fixed.antt =====
-- Merged ranges stay as they are under `merge_byte_ranges` (src/recovery/mapfile.rs).
use freemkv_engine.Base.{
  ℕ, ◌+◌, ◌<◌, ◌≡◌, refl, sym, ap, subst, lt→ltb, ◌∙◌, List, [], ◌∷◌, ◌++◌, arith, append_assoc,
  append-nil,
}
use freemkv_engine.Ranges.{
  ByteRange, insert_range, sort_ranges, merge_into, merge_loop, merge_byte_ranges,
}
use freemkv_engine.Ranges.Merge.{IsMerged}

sort_ranges-merged : (lo : ℕ) (rs : List ByteRange) → IsMerged lo rs → sort_ranges rs ≡ rs
unfolding sort_ranges insert_range
sort_ranges-merged lo [] m = refl
sort_ranges-merged lo ((p, n) ∷ []) m = refl
sort_ranges-merged lo ((p, n) ∷ (q, k) ∷ rs) m =
    rw (sort_ranges-merged (p + n + 1) ((q, k) ∷ rs) m.3) (ground arith)

merge_into-push :
    (lo p n : ℕ) (out rs : List ByteRange)
    → IsMerged lo (out ++ (p, n) ∷ rs)
    → merge_into out (p, n) ≡ out ++ (p, n) ∷ []
unfolding merge_into
merge_into-push lo p n [] rs m = refl
merge_into-push lo p n ((q, k) ∷ []) rs m = ground arith
merge_into-push lo p n ((q, k) ∷ s ∷ out) rs m =
    ap (λ t. (q, k) ∷ t) (merge_into-push (q + k + 1) p n (s ∷ out) rs m.3)

IsMerged-positive :
    (lo p n : ℕ) (out rs : List ByteRange) → IsMerged lo (out ++ (p, n) ∷ rs) → 0 < n
IsMerged-positive lo p n [] rs m = m.1
IsMerged-positive lo p n ((q, k) ∷ out) rs m = IsMerged-positive (q + k + 1) p n out rs m.3

merge_loop-append :
    (lo : ℕ) (out rs : List ByteRange) → IsMerged lo (out ++ rs) → merge_loop out rs ≡ out ++ rs
unfolding merge_loop
merge_loop-append lo out [] m = sym (append-nil out)
merge_loop-append lo out ((p, n) ∷ rs) m =
    let push = sym (append_assoc out ((p, n) ∷ []) rs) in
    rw (lt→ltb 0 n (IsMerged-positive lo p n out rs m), merge_into-push lo p n out rs m)
      (merge_loop-append lo (out ++ (p, n) ∷ []) rs (subst (IsMerged lo) push m) ∙ sym push)

-- Merged ranges stay as they are.
pub merge_byte_ranges-merged : (rs : List ByteRange) → IsMerged 0 rs → merge_byte_ranges rs ≡ rs
unfolding merge_byte_ranges
merge_byte_ranges-merged rs m =
    ap (merge_loop []) (sort_ranges-merged 0 rs m) ∙ merge_loop-append 0 [] rs m
