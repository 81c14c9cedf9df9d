-- ===== src/Delivery.antt =====
-- The consumer's side of the pipe between a pass and its sink (src/recovery/mod.rs): `apply` on one
-- item after the other, until one stops it or fails.
pub mod Statuses
use freemkv_engine.Base.{ℕ, ◌+◌, ◌≡◌, refl, Bool, true, false, ◌||◌, List, [], ◌∷◌, ◌++◌, arith}
use freemkv_engine.Mapfile.State.{Result, ok, err}

-- `libfreemkv::io::Flow`.
pub data Flow : Type 0 where
  continue stop : Flow

module _ {S : Type 0} where
  abbrev pub after_apply : Result Flow × S → (S → Result Flow × S) → Result Flow × S
  after_apply (ok continue, s) rest = rest s
  after_apply (ok stop, s) rest = (ok stop, s)
  after_apply (err e, s) rest = (err e, s)

  -- The items from the n-th on.
  unfoldable pub deliver :
      {Item : Type 0} → (ℕ → Item → S → Result Flow × S) → ℕ → List Item → S → Result Flow × S
  deliver apply n [] s = (ok continue, s)
  deliver apply n (item ∷ items) s = after_apply (apply n item s) (deliver apply (n + 1) items)

abbrev pub went_on : Result Flow → Bool
went_on (ok continue) = true
went_on (ok stop) = false
went_on (err e) = false

-- Whether any item covers a byte.
unfoldable pub any_covers : {Item : Type 0} → (Item → ℕ → Bool) → List Item → ℕ → Bool
any_covers covers [] x = false
any_covers covers (i ∷ is) x = covers i x || any_covers covers is x

pub any_covers-append :
    {Item : Type 0} (covers : Item → ℕ → Bool) (is js : List Item) (x : ℕ)
    → any_covers covers (is ++ js) x ≡ (any_covers covers is x || any_covers covers js x)
unfolding any_covers
any_covers-append covers [] js x = refl
any_covers-append covers (i ∷ is) js x = ground (arith, any_covers-append covers is js x)
