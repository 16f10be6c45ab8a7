-- ===== src/Prelude/Options.antt =====
-- Optional results in a chain, and what holds of a result where there is one.
use mathlib.Core.Path.{◌≡◌, refl}
use mathlib.Core.Bool.{Bool, true, false}
use mathlib.Core.Option.{Option, none, some}

-- The step of a `do` block over `Option`, which computes wherever it stands.
infixl 5 ◌>>=◌
abbrev pub ◌>>=◌ {ℓ κ} : {A : Type ℓ} {B : Type κ} → Option A → (A → Option B) → Option B
none >>= f = none
some a >>= f = f a

abbrev pub is_some {ℓ} : {A : Type ℓ} → Option A → Bool
is_some none = false
is_some (some a) = true

module _ {A : Type 0} (P : A → Type 0) where
  -- Where there is a value, it has the property.
  abbrev pub IfSome : Option A → Type 0
  IfSome none = Unit
  IfSome (some a) = P a

  pub bind-IfSome :
      {B : Type 0} (o : Option B) (f : B → Option A) → ((b : B) → IfSome (f b)) → IfSome (o >>= f)
  bind-IfSome none f h = tt
  bind-IfSome (some b) f h = h b

  pub some-IfSome : (o : Option A) (a : A) → o ≡ some a → IfSome o → P a
  some-IfSome o a e h = rw e at h

-- A chain with a result has one at each step.
pub some-bind {ℓ κ} :
    {A : Type ℓ} {B : Type κ} (o : Option A) (f : A → Option B) (b : B)
    → (o >>= f) ≡ some b
    → (a : A) × (o ≡ some a) × (f a ≡ some b)
some-bind none f b e = absurd cc
some-bind (some a) f b e = (a, refl, e)

pub some_not_none {ℓ} : {A : Type ℓ} {o : Option A} {a : A} → o ≡ some a → o ≡ none → ⊥
some_not_none e h = absurd cc
