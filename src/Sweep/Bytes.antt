-- ===== src/Sweep/Bytes.antt =====
-- What the writes of the sweep's consumer (src/recovery/sweep.rs) leave in the image.
use freemkv_engine.Base.{
  ℕ, zero, suc, ◌+◌, ◌-◌, ◌≤◌, ◌<◌, ◌≡◌, refl, Bool, true, false, ◌&&◌, Option, none, some, List,
  [], ◌∷◌, arith, min, ltb, leb, if◌then◌else◌, length, drop,
}
use freemkv_engine.Sweep.{write_bytes, write_zeros, filled, fill_loop}

abbrev pub is_some : Option ℕ → Bool
is_some none = false
is_some (some _) = true

fill_loop_zeros :
    (fuel left : ℕ) (events : List (Bool × Option ℕ)) (pos from len : ℕ) (c : ℕ → Option ℕ) (x : ℕ)
    → len ≤ from + fuel
    → from ≤ len
    → (fill_loop fuel left events pos from len c).0 ≡ filled
    → (fill_loop fuel left events pos from len c).1 x
      ≡ (if leb (pos + from) x && ltb x (pos + len) then some 0 else c x)
unfolding fill_loop write_zeros
fill_loop_zeros zero left events pos from len c x h i f = ground arith
fill_loop_zeros (suc fuel) left events pos from len c x h i f =
    let chunk = min (len - from) 65536 in
    ground (
      arith,
      fill_loop_zeros fuel left (drop 1 events) pos (from + chunk) len
          (write_zeros (pos + from) chunk c) x,
    )

pub write_bytes_keeps :
    (pos : ℕ) (bs : List ℕ) (c : ℕ → Option ℕ) (x : ℕ)
    → is_some (c x) ≡ true
    → is_some (write_bytes pos bs c x) ≡ true
unfolding write_bytes
write_bytes_keeps pos [] c x h = h
write_bytes_keeps pos (b ∷ bs) c x h = ground (arith, write_bytes_keeps (pos + 1) bs c x h)

pub write_bytes_range :
    (pos : ℕ) (bs : List ℕ) (c : ℕ → Option ℕ) (x : ℕ)
    → pos ≤ x
    → x < pos + length bs
    → is_some (write_bytes pos bs c x) ≡ true
unfolding write_bytes
write_bytes_range pos [] c x h i = ground arith
write_bytes_range pos (b ∷ bs) c x h i = ground (arith, write_bytes_range (pos + 1) bs c x)

pub fill_loop_keeps :
    (fuel left : ℕ) (events : List (Bool × Option ℕ)) (pos from len : ℕ) (c : ℕ → Option ℕ) (x : ℕ)
    → is_some (c x) ≡ true
    → is_some ((fill_loop fuel left events pos from len c).1 x) ≡ true
unfolding fill_loop write_zeros
fill_loop_keeps zero left events pos from len c x h = h
fill_loop_keeps (suc fuel) left events pos from len c x h =
    let chunk = min (len - from) 65536 in
    ground (
      arith,
      fill_loop_keeps fuel left (drop 1 events) pos (from + chunk) len
          (write_zeros (pos + from) chunk c) x,
    )

fill_loop_calm :
    (fuel left pos from len : ℕ) (c : ℕ → Option ℕ)
    → (fill_loop fuel left [] pos from len c).0 ≡ filled
unfolding fill_loop
fill_loop_calm zero left pos from len c = refl
fill_loop_calm (suc fuel) left pos from len c =
    let chunk = min (len - from) 65536 in
    ground
      (arith, fill_loop_calm fuel left pos (from + chunk) len (write_zeros (pos + from) chunk c))

-- The loop of a fill goes through where no chunk fails and no disown lands, and where it goes
-- through it leaves a zero in every byte of the range and every other byte as it was, whatever the
-- events were.
pub fill_loop-IsFilled :
    (left pos len : ℕ) (c : ℕ → Option ℕ)
    → ((fill_loop len left [] pos 0 len c).0 ≡ filled)
      × ((events : List (Bool × Option ℕ)) (x : ℕ)
          → (fill_loop len left events pos 0 len c).0 ≡ filled
          → (fill_loop len left events pos 0 len c).1 x
            ≡ (if leb pos x && ltb x (pos + len) then some 0 else c x))
fill_loop-IsFilled left pos len c = (
  fill_loop_calm len left pos 0 len c,
  λ events x h.
      ground (arith, fill_loop_zeros len left events pos 0 len c x (omega arith) (omega arith) h),
)
