-- ===== src/SubRanges/Removed.antt =====
-- `SubRanges::remove` of src/recovery/patch.rs: the bytes that are left, and the shape of the list.
use freemkv_engine.Base.{
  ℕ, zero, suc, ◌+◌, ◌-◌, ◌%◌, ◌≤◌, ◌<◌, ◌≡◌, refl, true, false, not, ◌&&◌, ◌||◌, [], ◌∷◌, ◌++◌,
  arith, ◌==◌, All,
}
use freemkv_engine.Ranges.{ByteRange, in_range}
use freemkv_engine.SubRanges.{SubRanges, contains, keep_outside, remove_loop, remove}

suc-ne-zero : (n : ℕ) → (suc n == 0) ≡ false
suc-ne-zero n = ground arith

-- From `lo` on: sub-ranges that are not empty, each of whole sectors of 2048 bytes, in order and
-- with a gap of a sector at least between two.
abbrev pub IsWell : ℕ → SubRanges → Type 0
IsWell lo [] = Unit {0}
IsWell lo ((p, n) ∷ rs) =
    (lo ≤ p) × (0 < n) × (p % 2048 ≡ 0) × (n % 2048 ≡ 0) × IsWell (p + n + 2048) rs

contains-append :
    (rs ss : SubRanges) (x : ℕ) → contains (rs ++ ss) x ≡ (contains rs x || contains ss x)
unfolding contains
contains-append [] ss x = refl
contains-append (r ∷ rs) ss x = ground (arith, contains-append rs ss x)

contains-keep_outside :
    (pos len : ℕ) (r : ByteRange) (x : ℕ)
    → contains (keep_outside pos (pos + len) r) x ≡ (in_range r x && not (in_range (pos, len) x))
unfolding contains keep_outside
contains-keep_outside pos len (p, n) x = ground arith

contains-remove_loop :
    (pos len : ℕ) (rs : SubRanges) (x : ℕ)
    → contains (remove_loop pos (pos + len) rs) x ≡ (contains rs x && not (in_range (pos, len) x))
unfolding contains remove_loop
contains-remove_loop pos len [] x = refl
contains-remove_loop pos len (r ∷ rs) x =
    rw (contains-append (keep_outside pos (pos + len) r) (remove_loop pos (pos + len) rs) x)
      (rw (contains-keep_outside pos len r x, contains-remove_loop pos len rs x) (ground arith))

-- What is left after a removal: exactly the bytes that were there and are not in its range.
pub contains-remove :
    (pos len : ℕ) (rs : SubRanges) (x : ℕ)
    → contains (remove pos len rs) x ≡ (contains rs x && not (in_range (pos, len) x))
unfolding remove
contains-remove pos len rs x = ground (arith, contains-remove_loop pos len rs x)

pub lower-IsWell : (lo lo' : ℕ) (rs : SubRanges) → lo' ≤ lo → IsWell lo rs → IsWell lo' rs
lower-IsWell lo lo' [] h w = tt
lower-IsWell lo lo' ((p, n) ∷ rs) h (a, b, c, d, w) = (omega arith, b, c, d, w)

keep_outside-IsWell :
    (lo pos len p n : ℕ) (rs : SubRanges)
    → 0 < len
    → pos % 2048 ≡ 0
    → len % 2048 ≡ 0
    → (lo ≤ p) × (0 < n) × (p % 2048 ≡ 0) × (n % 2048 ≡ 0)
    → IsWell (p + n + 2048) rs
    → IsWell lo (keep_outside pos (pos + len) (p, n) ++ rs)
unfolding keep_outside
keep_outside-IsWell lo pos len p n rs l a b h w = ground (
  arith,
  lower-IsWell (p + n + 2048) lo rs,
  lower-IsWell (p + n + 2048) (pos + 2048) rs,
  lower-IsWell (p + n + 2048) (p + (pos - p) + 2048) rs,
  lower-IsWell (p + n + 2048) (pos + len + (p + n - (pos + len)) + 2048) rs,
)

remove_loop-IsWell :
    (lo pos len : ℕ) (rs : SubRanges)
    → 0 < len
    → pos % 2048 ≡ 0
    → len % 2048 ≡ 0
    → IsWell lo rs
    → IsWell lo (remove_loop pos (pos + len) rs)
unfolding remove_loop
remove_loop-IsWell lo pos len [] l a b w = tt
remove_loop-IsWell lo pos len ((p, n) ∷ rs) l a b (h0, h1, h2, h3, w) =
    keep_outside-IsWell lo pos len p n (remove_loop pos (pos + len) rs) l a b (h0, h1, h2, h3)
      (remove_loop-IsWell (p + n + 2048) pos len rs l a b w)

-- A removal of whole sectors keeps the shape.
pub remove-IsWell :
    (lo pos len : ℕ) (rs : SubRanges)
    → pos % 2048 ≡ 0
    → len % 2048 ≡ 0
    → IsWell lo rs
    → IsWell lo (remove pos len rs)
unfolding remove
remove-IsWell lo pos zero rs a b w = w
remove-IsWell lo pos (suc len) rs a b w =
    rw (suc-ne-zero len) (remove_loop-IsWell lo pos (suc len) rs (omega arith) a b w)

-- A sector whose first byte is not bad has no bad byte.
pub contains_sector :
    (lo : ℕ) (rs : SubRanges) (pos x : ℕ)
    → IsWell lo rs
    → pos % 2048 ≡ 0
    → contains rs pos ≡ false
    → in_range (pos, 2048) x ≡ true
    → contains rs x ≡ false
unfolding contains
contains_sector lo [] pos x w a h i = refl
contains_sector lo ((p, n) ∷ rs) pos x w a h i =
    ground (arith, contains_sector (p + n + 2048) rs pos x w.4 a, w.2, w.3)

pub contains_below :
    (lo : ℕ) (rs : SubRanges) (x : ℕ) → IsWell lo rs → x < lo → contains rs x ≡ false
unfolding contains
contains_below lo [] x w h = refl
contains_below lo ((p, n) ∷ rs) x w h = ground (arith, contains_below (p + n + 2048) rs x w.4)

-- The sector before a sub-range is not bad.
abbrev pub IsFree : SubRanges → ByteRange → Type 0
IsFree full (p, n) = 2048 ≤ p → contains full (p - 2048) ≡ false

gap_before :
    (lo : ℕ) (full rs : SubRanges)
    → IsWell lo rs
    → ((x : ℕ) → lo ≤ x + 2048 → contains full x ≡ contains rs x)
    → All (λ r. (r.1 % 2048 ≡ 0) × IsFree full r) rs
unfolding contains
gap_before lo full [] w h = tt
gap_before lo full ((p, n) ∷ rs) w h = (
  (w.3, λ big. ground (arith, h (p - 2048), contains_below (p + n + 2048) rs (p - 2048) w.4, w.0)),
  gap_before (p + n + 2048) full rs w.4 (λ x far. ground (arith, h x, w.0)),
)

pub IsWell-IsFree : (rs : SubRanges) → IsWell 0 rs → All (λ r. (r.1 % 2048 ≡ 0) × IsFree rs r) rs
IsWell-IsFree rs w = gap_before 0 rs rs w (λ x _. refl)

pub IsWell-IsWhole : (lo : ℕ) (rs : SubRanges) → IsWell lo rs → All (λ r. r.1 % 2048 ≡ 0) rs
IsWell-IsWhole lo [] w = tt
IsWell-IsWhole lo ((p, n) ∷ rs) w = (w.3, IsWell-IsWhole (p + n + 2048) rs w.4)
