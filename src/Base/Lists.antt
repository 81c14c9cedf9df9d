-- ===== src/Base/Lists.antt =====
-- Lists measured and cut by native numbers, under the library's names.
use Prim.Native.Nat.{ℕ, zero, suc, ◌+◌}
use mathlib.Core.Path.{◌≡◌, refl}
use mathlib.Core.Bool.{Bool, true, false, ◌&&◌}
use mathlib.Core.List.{List, [], ◌∷◌, ◌++◌}
use native.Mathlib.Omega.{arith}
use freemkv_engine.Base.Tests.{◌==◌}

module _ {ℓ} {A : Type ℓ} where
  abbrev pub length : List A → ℕ
  length [] = 0
  length (x ∷ xs) = suc (length xs)

  abbrev pub take : ℕ → List A → List A
  take zero xs = []
  take (suc n) [] = []
  take (suc n) (x ∷ xs) = x ∷ take n xs

  abbrev pub drop : ℕ → List A → List A
  drop zero xs = xs
  drop (suc n) [] = []
  drop (suc n) (x ∷ xs) = drop n xs

  -- How many leading elements pass the test: `slice::partition_point` on a partitioned slice.
  abbrev pub partition_point : (A → Bool) → List A → ℕ
  partition_point test [] = 0
  partition_point test (x ∷ xs) =
      let rest = partition_point test xs in elim (test x) [ true ↦ suc rest | false ↦ 0 ]

  pub length-append : (xs ys : List A) → length (xs ++ ys) ≡ length xs + length ys
  length-append [] ys = omega arith
  length-append (x ∷ xs) ys = omega (arith, length-append xs ys)

-- A property of every element.
abbrev pub All {ℓ κ} : {A : Type ℓ} → (A → Type κ) → List A → Type κ
All P [] = Unit
All P (x ∷ xs) = P x × All P xs

-- Equality of two sequences of numbers (bytes or characters).
unfoldable pub nats_eq : List ℕ → List ℕ → Bool
nats_eq [] [] = true
nats_eq (x ∷ xs) (y ∷ ys) = x == y && nats_eq xs ys
nats_eq _ _ = false

pub nats_eq-true : (xs ys : List ℕ) → nats_eq xs ys ≡ true → xs ≡ ys
unfolding nats_eq
nats_eq-true [] [] h = refl
nats_eq-true [] (y ∷ ys) h = cc
nats_eq-true (x ∷ xs) [] h = cc
nats_eq-true (x ∷ xs) (y ∷ ys) h = ground (arith, nats_eq-true xs ys)

pub nats_eq_self : (xs : List ℕ) → nats_eq xs xs ≡ true
unfolding nats_eq
nats_eq_self [] = refl
nats_eq_self (x ∷ xs) = ground (arith, nats_eq_self xs)
