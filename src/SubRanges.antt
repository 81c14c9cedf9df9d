-- ===== src/SubRanges.antt =====
-- The still-bad sub-ranges of one section: `SubRanges` of src/recovery/patch.rs.
pub mod Removed
use freemkv_engine.Base.{
  ℕ, ◌+◌, ◌-◌, Bool, true, false, ◌&&◌, ◌||◌, List, [], ◌∷◌, ◌++◌, ltb, leb, ◌==◌, if◌then◌else◌,
}
use freemkv_engine.Ranges.{ByteRange}

-- `SubRanges`, whose one field is its list.
abbrev pub SubRanges : Type 0
SubRanges = List ByteRange

-- `SubRanges::from_section`.
abbrev pub from_section : ℕ → ℕ → SubRanges
from_section pos len = if len == 0 then [] else (pos, len) ∷ []

-- `SubRanges::is_empty`.
abbrev pub is_empty : SubRanges → Bool
is_empty [] = true
is_empty (r ∷ rs) = false

-- `SubRanges::total_len`.
abbrev pub total_len : SubRanges → ℕ
total_len [] = 0
total_len (r ∷ rs) = r.1 + total_len rs

-- `SubRanges::contains`.
unfoldable pub contains : SubRanges → ℕ → Bool
contains [] x = false
contains ((p, n) ∷ rs) x = (leb p x && ltb (x - p) n) || contains rs x

-- One turn of the loop of `remove`: what is pushed for one sub-range.
unfoldable pub keep_outside : ℕ → ℕ → ByteRange → SubRanges
keep_outside pos rend (rp, rl) =
    let re = rp + rl in
    if leb rend rp || leb re pos
    then (rp, rl) ∷ []
    else (if ltb rp pos then (rp, pos - rp) ∷ [] else [])
      ++ (if ltb rend re then (rend, re - rend) ∷ [] else [])

unfoldable pub remove_loop : ℕ → ℕ → SubRanges → SubRanges
unfolding keep_outside
remove_loop pos rend [] = []
remove_loop pos rend (r ∷ rs) = keep_outside pos rend r ++ remove_loop pos rend rs

-- `SubRanges::remove`.
unfoldable pub remove : ℕ → ℕ → SubRanges → SubRanges
unfolding remove_loop
remove pos len ranges = if len == 0 then ranges else remove_loop pos (pos + len) ranges
