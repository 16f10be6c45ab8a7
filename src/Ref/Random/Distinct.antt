-- ===== src/Ref/Random/Distinct.antt =====
-- A sample of distinct numbers is distinct: `sample` takes no position twice.
use modern_c.Prelude.{
  ℕ, zero, suc, ◌%◌, ◌≤◌, ◌≡◌, refl, arith, false, ◌==◌, List, [], ◌∷◌, length, All, All-imp,
}
use modern_c.Ref.Random.{pure, draw, nth, remove_at, sample}
use modern_c.Ref.Random.Rules.{
  Draws, Draws-pure, Draws-bind, Draws-draw, nth-All, remove_at-All, length-remove_at,
}

abbrev pub Absent : ℕ → List ℕ → Type 0
Absent x xs = All (λ y. (x == y) ≡ false) xs

abbrev pub NoTwins : List ℕ → Type 0
NoTwins [] = Unit
NoTwins (x ∷ xs) = Absent x xs × NoTwins xs

Absent-sym : (x y : ℕ) → (x == y) ≡ false → (y == x) ≡ false
Absent-sym x y h = ground arith

-- What is taken out is not in the rest.
NoTwins-remove_at :
    (x : ℕ) (xs : List ℕ) (i : ℕ)
    → i ≤ length xs
    → NoTwins (x ∷ xs)
    → Absent (nth x xs i) (remove_at (x ∷ xs) i) × NoTwins (remove_at (x ∷ xs) i)
unfolding nth remove_at
NoTwins-remove_at x [] zero le h = (tt, tt)
NoTwins-remove_at x (y ∷ ys) zero le h = h
NoTwins-remove_at x [] (suc i) le h = absurd (omega arith)
NoTwins-remove_at x (y ∷ ys) (suc i) le h =
    let (out, rest) = NoTwins-remove_at y ys i (omega arith) h.1 in
    let apart : (x == nth y ys i) ≡ false = nth-All (λ z. (x == z) ≡ false) y ys i h.0.0 h.0.1 in
    (
      (Absent-sym x (nth y ys i) apart, out),
      (remove_at-All (λ z. (x == z) ≡ false) (y ∷ ys) i h.0, rest),
    )

-- A sample of distinct numbers has the size asked for, no number twice, and keeps what all have.
pub Draws-sample_distinct :
    (P : ℕ → Type 0) (xs : List ℕ) (k : ℕ)
    → k ≤ length xs
    → NoTwins xs
    → All P xs
    → Draws (λ ys. (length ys ≡ k) × NoTwins ys × All P ys) (sample xs k)
unfolding sample
Draws-sample_distinct P xs zero le d h = Draws-pure _ [] (refl, tt, tt)
Draws-sample_distinct P [] (suc k) le d h = absurd (omega arith)
Draws-sample_distinct P (x ∷ xs) (suc k) le d h =
    Draws-bind (λ _. Unit {0}) (λ ys. (length ys ≡ suc k) × NoTwins ys × All P ys) draw _ Draws-draw
      λ t _.
        let i = t % length (x ∷ xs) in
        let small : i ≤ length xs = omega arith in
        let (out, rest_d) = NoTwins-remove_at x xs i small d in
        let Q = λ (z : ℕ). P z × ((nth x xs i == z) ≡ false) in
        Draws-bind (λ ys. (length ys ≡ k) × NoTwins ys × All Q ys) _
          (sample (remove_at (x ∷ xs) i) k) (λ rest. pure (nth x xs i ∷ rest))
          (Draws-sample_distinct Q (remove_at (x ∷ xs) i) k
            (omega (arith, length-remove_at x xs i small)) rest_d
            (both P (λ z. (nth x xs i == z) ≡ false) (remove_at (x ∷ xs) i)
              (remove_at-All P (x ∷ xs) i h) out))
          λ rest (e, nd, q). Draws-pure _ _ (
            omega (arith, e),
            (All-imp Q _ rest (λ z w. w.1) q, nd),
            (nth-All P x xs i h.0 h.1, All-imp Q P rest (λ z w. w.0) q),
          )
  where
    both : (P Q : ℕ → Type 0) (ys : List ℕ) → All P ys → All Q ys → All (λ z. P z × Q z) ys
    both P Q [] p q = tt
    both P Q (y ∷ ys) p q = ((p.0, q.0), both P Q ys p.1 q.1)
