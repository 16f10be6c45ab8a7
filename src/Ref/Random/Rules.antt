-- ===== src/Ref/Random/Rules.antt =====
-- Total correctness of drawing computations: for every tape the computation returns, and its
-- result has the stated property.
use modern_c.Prelude.{
  is_cons, ℕ, zero, suc, ◌%◌, ◌<◌, ◌≤◌, ◌≡◌, refl, arith, Bool, true, false, lt→ltb, if◌then◌else◌,
  Option, none, some, List, [], ◌∷◌, length, All,
}
use modern_c.Ref.Random.{
  Rng, Draw, ◌>>=◌, pure, draw, percent, chance, chance_if, randrange, randint, nth, choice,
  remove_at, sample,
}

module _ {ℓ} {A : Type ℓ} where
  abbrev pub Ensures : (A → Type 0) → Option (A × Rng) → Type 0
  Ensures P none = ⊥
  Ensures P (some (a, r)) = P a

  -- `m` returns on every tape, with a result that has `P`.
  pub record Draws (P : A → Type 0) (m : Draw A) : Type ℓ where
    pub on : (r : Rng) → Ensures P (m r)

  pub Draws-pure : (P : A → Type 0) (a : A) → P a → Draws P (pure a)
  Draws-pure P a h = record { on = λ r. h }

  pub Draws-if :
      (P : A → Type 0) (b : Bool) (m n : Draw A)
      → (b ≡ true → Draws P m)
      → (b ≡ false → Draws P n)
      → Draws P (if b then m else n)
  Draws-if P true m n hm hn = hm refl
  Draws-if P false m n hm hn = hn refl

  pub Draws-map : (P Q : A → Type 0) (m : Draw A) → ((a : A) → P a → Q a) → Draws P m → Draws Q m
  Draws-map P Q m f hm = record { on = λ r. ensured (m r) (hm.on r) }
    where
      ensured : (o : Option (A × Rng)) → Ensures P o → Ensures Q o
      ensured none h = h
      ensured (some (a, r)) h = f a h

module _ {ℓ κ} {A : Type ℓ} {B : Type κ} where
  pub Draws-bind :
      (P : A → Type 0) (Q : B → Type 0) (m : Draw A) (f : A → Draw B)
      → Draws P m
      → ((a : A) → P a → Draws Q (f a))
      → Draws Q (m >>= f)
  Draws-bind P Q m f hm hf = record { on = λ r. ensured (m r) (hm.on r) }
    where
      ensured :
          (o : Option (A × Rng))
          → Ensures P o
          → Ensures Q (elim o [ none ↦ none | some (a, r') ↦ f a r' ])
      ensured none h = h
      ensured (some (a, r')) h = (hf a h).on r'

-- A draw may give any number.
pub Draws-draw : Draws (λ d. Unit {0}) draw
unfolding draw
Draws-draw = record { on = λ r. tt }

pub Draws-percent : Draws (λ d. d < 100) percent
unfolding percent
Draws-percent = record { on = λ r. omega arith }

pub Draws-chance : (p : ℕ) → Draws (λ b. Unit {0}) (chance p)
unfolding chance
Draws-chance p = record { on = λ r. tt }

-- A flag that comes true grants its condition.
pub Draws-chance_if : (c : Bool) (p : ℕ) → Draws (λ b. b ≡ true → c ≡ true) (chance_if c p)
unfolding chance_if
Draws-chance_if true p = record { on = λ r h. refl }
Draws-chance_if false p = record { on = λ r h. h }

pub Draws-randrange : (lo hi : ℕ) → lo < hi → Draws (λ n. (lo ≤ n) × (n < hi)) (randrange lo hi)
unfolding randrange
Draws-randrange lo hi h = record { on = λ r. rw (lt→ltb lo hi h) (omega arith) }

pub Draws-randint : (m : ℕ) → Draws (λ n. n ≤ m) (randint m)
unfolding randint
Draws-randint m = record { on = λ r. omega arith }

module _ {ℓ} {A : Type ℓ} where
  pub nth-All : (P : A → Type 0) (x : A) (xs : List A) (i : ℕ) → P x → All P xs → P (nth x xs i)
  unfolding nth
  nth-All P x [] i h hs = h
  nth-All P x (y ∷ ys) zero h hs = h
  nth-All P x (y ∷ ys) (suc i) h hs = nth-All P y ys i hs.0 hs.1

  pub Draws-choice :
      (P : A → Type 0) (xs : List A) → is_cons xs ≡ true → All P xs → Draws P (choice xs)
  unfolding choice
  Draws-choice P [] e h = cc
  Draws-choice P (x ∷ xs) e h = record { on = λ r. nth-All P x xs _ h.0 h.1 }

  pub remove_at-All : (P : A → Type 0) (xs : List A) (i : ℕ) → All P xs → All P (remove_at xs i)
  unfolding remove_at
  remove_at-All P [] i h = h
  remove_at-All P (x ∷ xs) zero h = h.1
  remove_at-All P (x ∷ xs) (suc i) h = (h.0, remove_at-All P xs i h.1)

  pub length-remove_at :
      (x : A) (xs : List A) (i : ℕ) → i ≤ length xs → length (remove_at (x ∷ xs) i) ≡ length xs
  unfolding remove_at
  length-remove_at x xs zero h = refl
  length-remove_at x [] (suc i) h = absurd (omega arith)
  length-remove_at x (y ∷ ys) (suc i) h = omega (arith, length-remove_at y ys i (omega arith))

  -- A sample of at most all elements is drawn, of the size asked for.
  pub Draws-sample :
      (P : A → Type 0) (xs : List A) (k : ℕ)
      → k ≤ length xs
      → All P xs
      → Draws (λ ys. (length ys ≡ k) × All P ys) (sample xs k)
  unfolding sample
  Draws-sample P xs zero le h = record { on = λ r. (refl, tt) }
  Draws-sample P [] (suc k) le h = absurd (omega arith)
  Draws-sample P (x ∷ xs) (suc k) le h =
      Draws-bind (λ d. Unit {0}) (λ ys. (length ys ≡ suc k) × All P ys) draw _ Draws-draw
        λ d _.
          let i = d % length (x ∷ xs) in
          let small : i ≤ length xs = omega arith in
          Draws-bind (λ ys. (length ys ≡ k) × All P ys) _ (sample (remove_at (x ∷ xs) i) k)
            (λ rest. pure (nth x xs i ∷ rest))
            (Draws-sample P (remove_at (x ∷ xs) i) k (omega (arith, length-remove_at x xs i small))
              (remove_at-All P (x ∷ xs) i h))
            λ rest (e, hs). Draws-pure _ _ (omega (arith, e), (nth-All P x xs i h.0 h.1, hs))
