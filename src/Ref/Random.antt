-- ===== src/Ref/Random.antt =====
-- The calls that tools/fuzz/mcref.py makes of `random.Random`. The generator of numbers is a tape
-- of arbitrary draws, so that a theorem for every tape holds for every seed. `none` is an exception:
-- `choice` of an empty list, `randrange` of an empty range, a failed assertion.
pub mod Rules
pub mod Distinct
use modern_c.Prelude.{
  ℕ, zero, suc, ◌+◌, ◌-◌, ◌%◌, Bool, true, false, ltb, if◌then◌else◌, Option, none, some, List, [],
  ◌∷◌, length, get_elem?,
}

pub record Rng : Type 0 where
  pub tape : ℕ → ℕ
  pub at : ℕ

-- A computation that draws.
abbrev pub Draw {ℓ} : Type ℓ → Type ℓ
Draw A = Rng → Option (A × Rng)

infixl 5 ◌>>=◌
abbrev pub ◌>>=◌ {ℓ κ} : {A : Type ℓ} {B : Type κ} → Draw A → (A → Draw B) → Draw B
◌>>=◌ m f r = elim (m r) [ none ↦ none | some (a, r') ↦ f a r' ]

abbrev pub pure {ℓ} : {A : Type ℓ} → A → Draw A
pure a r = some (a, r)

abbrev pub raise {ℓ} : {A : Type ℓ} → Draw A
raise r = none

unfoldable pub draw : Draw ℕ
draw r = some (r.tape r.at, record r { at = r.at + 1 })

-- `random()` in whole hundredths: every threshold of the program is one.
unfoldable pub percent : Draw ℕ
unfolding draw
percent = do d ← draw; pure (d % 100)

-- `random() < p`, and `c and random() < p`, which draws only if `c` holds.
unfoldable pub chance : ℕ → Draw Bool
unfolding percent
chance p = do d ← percent; pure (ltb d p)

unfoldable pub chance_if : Bool → ℕ → Draw Bool
unfolding chance
chance_if true p = chance p
chance_if false p = pure false

-- `randrange(lo, hi)`: a number from `lo` to `hi - 1`.
unfoldable pub randrange : ℕ → ℕ → Draw ℕ
unfolding draw
randrange lo hi = if ltb lo hi then (do d ← draw; pure (lo + d % (hi - lo))) else raise

-- `randint(0, m)`.
unfoldable pub randint : ℕ → Draw ℕ
unfolding draw
randint m = do d ← draw; pure (d % (m + 1))

module _ {ℓ} {A : Type ℓ} where
  pub nth : A → List A → ℕ → A
  nth x [] i = x
  nth x (y ∷ ys) zero = x
  nth x (y ∷ ys) (suc i) = nth y ys i

  unfoldable pub choice : List A → Draw A
  unfolding draw nth
  choice [] = raise
  choice (x ∷ xs) = do d ← draw; pure (nth x xs (d % length (x ∷ xs)))

  pub remove_at : List A → ℕ → List A
  remove_at [] i = []
  remove_at (x ∷ xs) zero = xs
  remove_at (x ∷ xs) (suc i) = x ∷ remove_at xs i

  -- `sample(xs, k)`: `k` positions, no position twice.
  unfoldable pub sample : List A → ℕ → Draw (List A)
  unfolding draw nth remove_at
  sample xs zero = pure []
  sample [] (suc k) = raise
  sample (x ∷ xs) (suc k) = do
    d ← draw
    let i = d % length (x ∷ xs)
    rest ← sample (remove_at (x ∷ xs) i) k
    pure (nth x xs i ∷ rest)

-- A dict lookup whose `KeyError` is not caught.
abbrev pub lift {ℓ} : {A : Type ℓ} → Option A → Draw A
lift none r = none
lift (some a) r = some (a, r)
