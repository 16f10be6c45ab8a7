-- ===== src/Ref/Gen/Switches/Arms.antt =====
-- The expected value of the integer switch is that of its first matching arm.
use modern_c.Prelude.{
  ℕ, suc, ◌+◌, ◌*◌, ◌<◌, ◌≡◌, refl, ap, ◌∙◌, length, arith, false, Bool-cases, inl, inr, leb, ◌==◌,
  if◌then◌else◌, List, [], ◌∷◌, All, All-imp,
}
use modern_c.Ref.Random.Distinct.{Absent, NoTwins}
use modern_c.Ref.Gen.Switches.{insert_sorted, sort, scalar_exp}

-- `switch subj` over the cases from arm `k` on, as the language has it: the first arm that matches,
-- and the wildcard's value where none does.
abbrev pub first_arm : ℕ → List ℕ → ℕ → ℕ → ℕ
first_arm subj [] k wild = wild
first_arm subj (c ∷ cs) k wild = if subj == c then (k + 1) * 11 else first_arm subj cs (k + 1) wild

-- Strictly rising from above `lo` on.
abbrev pub Rising : List ℕ → Type 0
Rising [] = Unit
Rising (x ∷ xs) = All (λ y. x < y) xs × Rising xs

unmatched : (subj : ℕ) (cs : List ℕ) (k exp : ℕ) → Absent subj cs → scalar_exp subj cs k exp ≡ exp
unfolding scalar_exp
unmatched subj [] k exp h = refl
unmatched subj (c ∷ cs) k exp h = rw h.0 (unmatched subj cs (k + 1) exp h.1)

pub Rising-NoTwins : (xs : List ℕ) → Rising xs → NoTwins xs
Rising-NoTwins [] h = tt
Rising-NoTwins (x ∷ xs) h = (All-imp _ _ xs (λ y lt. ground arith) h.0, Rising-NoTwins xs h.1)

-- Over distinct cases the last match is the first one.
pub scalar_exp-eq-first_arm :
    (subj : ℕ) (cs : List ℕ) (k exp : ℕ)
    → NoTwins cs
    → scalar_exp subj cs k exp ≡ first_arm subj cs k exp
unfolding scalar_exp
scalar_exp-eq-first_arm subj [] k exp h = refl
scalar_exp-eq-first_arm subj (c ∷ cs) k exp h = elim (Bool-cases (subj == c)) [
  | inl e ↦
      let same : subj ≡ c = ground arith in
      rw e (unmatched subj cs (k + 1) ((k + 1) * 11) (rw same h.0))
  | inr e ↦ rw e (scalar_exp-eq-first_arm subj cs (k + 1) exp h.1)
]

length-insert : (x : ℕ) (xs : List ℕ) → length (insert_sorted x xs) ≡ suc (length xs)
unfolding insert_sorted
length-insert x [] = refl
length-insert x (y ∷ ys) = elim (Bool-cases (leb x y)) [
  | inl e ↦ rw e refl
  | inr e ↦ rw e (ap suc (length-insert x ys))
]

-- Sorting keeps the number of elements.
pub length-sort : (xs : List ℕ) → length (sort xs) ≡ length xs
unfolding sort
length-sort [] = refl
length-sort (x ∷ xs) = length-insert x (sort xs) ∙ ap suc (length-sort xs)

All-insert : (P : ℕ → Type 0) (x : ℕ) (xs : List ℕ) → P x → All P xs → All P (insert_sorted x xs)
unfolding insert_sorted
All-insert P x [] h hs = (h, tt)
All-insert P x (y ∷ ys) h hs = elim (Bool-cases (leb x y)) [
  | inl e ↦ rw e (h, hs)
  | inr e ↦ rw e (hs.0, All-insert P x ys h hs.1)
]

Rising-insert : (x : ℕ) (xs : List ℕ) → Absent x xs → Rising xs → Rising (insert_sorted x xs)
unfolding insert_sorted
Rising-insert x [] a h = (tt, tt)
Rising-insert x (y ∷ ys) a h = elim (Bool-cases (leb x y)) [
  | inl e ↦
      let lt : x < y = ground (arith, a.0) in
      rw e ((lt, All-imp _ _ ys (λ z l. omega arith) h.0), h)
  | inr e ↦
      rw e (All-insert (λ z. y < z) x ys (ground (arith, a.0)) h.0, Rising-insert x ys a.1 h.1)
]

pub All-sort : (P : ℕ → Type 0) (xs : List ℕ) → All P xs → All P (sort xs)
unfolding sort
All-sort P [] h = tt
All-sort P (x ∷ xs) h = All-insert P x (sort xs) h.0 (All-sort P xs h.1)

-- Sorting distinct numbers makes them rise.
pub sort-Rising : (xs : List ℕ) → NoTwins xs → Rising (sort xs)
unfolding sort
sort-Rising [] h = tt
sort-Rising (x ∷ xs) h =
    Rising-insert x (sort xs) (All-sort (λ y. (x == y) ≡ false) xs h.0) (sort-Rising xs h.1)
