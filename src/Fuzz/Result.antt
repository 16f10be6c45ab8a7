-- ===== src/Fuzz/Result.antt =====
-- Results of the parsers in tools/fuzz/mcfuzz.py, which return a value or a complaint.
use modern_c.Prelude.{◌≡◌, refl, Option, none, some, ◌⊎◌, inl, inr}

module _ {C : Type 0} where
  infixl 5 ◌>>=◌
  unfoldable pub ◌>>=◌ : {A B : Type 0} → C ⊎ A → (A → C ⊎ B) → C ⊎ B
  inl c >>= f = inl c
  inr a >>= f = f a

  -- The value that must be there, or the complaint.
  unfoldable pub need : {A : Type 0} → C → Option A → C ⊎ A
  need c none = inl c
  need c (some a) = inr a

  -- Where there is a value, it has the property.
  pub Gives : {A : Type 0} → (A → Type 0) → C ⊎ A → Type 0
  Gives P (inl c) = Unit
  Gives P (inr a) = P a

  pub Gives-bind :
      {A B : Type 0} (P : A → Type 0) (Q : B → Type 0) (r : C ⊎ A) (f : A → C ⊎ B)
      → Gives P r
      → ((a : A) → P a → Gives Q (f a))
      → Gives Q (r >>= f)
  unfolding Gives ◌>>=◌
  Gives-bind P Q (inl c) f h k = tt
  Gives-bind P Q (inr a) f h k = k a h

  -- A step is known by its value.
  pub Gives-step :
      {A B : Type 0} (Q : B → Type 0) (r : C ⊎ A) (f : A → C ⊎ B)
      → ((a : A) → r ≡ inr a → Gives Q (f a))
      → Gives Q (r >>= f)
  unfolding Gives ◌>>=◌
  Gives-step Q (inl c) f k = tt
  Gives-step Q (inr a) f k = k a refl

  pub Gives-last :
      {A : Type 0} (Q : A → Type 0) (r : C ⊎ A) → ((a : A) → r ≡ inr a → Q a) → Gives Q r
  unfolding Gives
  Gives-last Q (inl c) k = tt
  Gives-last Q (inr a) k = k a refl

  pub Gives-need :
      {A B : Type 0} (Q : B → Type 0) (c : C) (o : Option A) (f : A → C ⊎ B)
      → ((a : A) → o ≡ some a → Gives Q (f a))
      → Gives Q (need c o >>= f)
  unfolding Gives ◌>>=◌ need
  Gives-need Q c none f k = tt
  Gives-need Q c (some a) f k = k a refl

  pub Gives-map :
      {A : Type 0} (P Q : A → Type 0) (r : C ⊎ A) → Gives P r → ((a : A) → P a → Q a) → Gives Q r
  unfolding Gives
  Gives-map P Q (inl c) h k = tt
  Gives-map P Q (inr a) h k = k a h

  pub inr-Gives : {A : Type 0} (P : A → Type 0) (r : C ⊎ A) (a : A) → r ≡ inr a → Gives P r → P a
  unfolding Gives
  inr-Gives P r a e h = rw e at h

module _ {C A B : Type 0} where
  -- A chain with a value has one at each step.
  pub bind-inr :
      {r : C ⊎ A} {f : A → C ⊎ B} {b : B}
      → (r >>= f) ≡ inr b
      → (a : A) × (r ≡ inr a) × (f a ≡ inr b)
  unfolding ◌>>=◌
  bind-inr {r = inl c} e = absurd cc
  bind-inr {r = inr a} e = (a, refl, e)

module _ {C A : Type 0} where
  pub need-inr : (c : C) {o : Option A} {a : A} → need c o ≡ inr a → o ≡ some a
  unfolding need
  need-inr c {o = none} e = absurd cc
  need-inr c {o = some b} e = cc

  pub inr-need : (c : C) {o : Option A} {a : A} → o ≡ some a → need c o ≡ inr a
  unfolding need
  inr-need c e = rw e refl

pub Gives-pure : (C : Type 0) {A : Type 0} (P : A → Type 0) (a : A) → P a → Gives {C = C} P (inr a)
unfolding Gives
Gives-pure C P a p = p
