-- ===== src/Section/Exact/Flow.antt =====
-- The rules for the control flow of a handler (src/recovery/section_recover.rs): a sequence, a choice,
-- a value.
use freemkv_engine.Base.{◌≡◌, Bool, true, false, if◌then◌else◌, if_split}
use freemkv_engine.Section.State.{
  Run, Exit, value, returned, exhausted, M, pure, carry_on, ◌>>=◌, ◌>>◌,
}
use freemkv_engine.Section.Exact.{Holds, Ensures, Anything}

module _ {A B : Type 0} (I : Run → Type 0) (P : A → Type 0) (Q : B → Type 0) where
  pub carry_on_rule :
      (h : Exit A × Run) (f : A → M B)
      → Holds I P h
      → ((a : A) → P a → Ensures I Q (f a))
      → Holds I Q (carry_on h f)
  carry_on_rule (value a, r) f k g = g a k.1 r k.0
  carry_on_rule (returned o, r) f k g = k
  carry_on_rule (exhausted, r) f k g = absurd k

  -- A piece, then what follows its value.
  pub bind_rule :
      (m : M A) (f : A → M B)
      → Ensures I P m
      → ((a : A) → P a → Ensures I Q (f a))
      → Ensures I Q (m >>= f)
  bind_rule m f e g r k = carry_on_rule (m r) f (e r k) g

module _ {B : Type 0} (I : Run → Type 0) (Q : B → Type 0) where
  pub then_rule :
      (m : M (Unit {0})) (n : M B) → Ensures I Anything m → Ensures I Q n → Ensures I Q (m >> n)
  then_rule m n e g = bind_rule I Anything Q m (λ _. n) e (λ a _. g)

  -- A choice between two pieces.
  pub choice_rule :
      (b : Bool) (m n : M B)
      → (b ≡ true → Ensures I Q m)
      → (b ≡ false → Ensures I Q n)
      → Ensures I Q (if b then m else n)
  choice_rule b m n = if_split (Ensures I Q) b m n

pub pure_rule :
    {A : Type 0} (I : Run → Type 0) (Q : A → Type 0) (a : A) → Q a → Ensures I Q (pure a)
pure_rule I Q a q r k = (k, q)

-- A weaker postcondition.
pub weaken_rule :
    {A : Type 0} (I : Run → Type 0) (P Q : A → Type 0) (m : M A)
    → ((a : A) → P a → Q a)
    → Ensures I P m
    → Ensures I Q m
weaken_rule {A} I P Q m w e r k = go (m r) (e r k)
  where
    go : (h : Exit A × Run) → Holds I P h → Holds I Q h
    go (value a, r') h = (h.0, w a h.1)
    go (returned o, r') h = h
    go (exhausted, r') h = h
