-- ===== src/Gates/Select/Seen.antt =====
-- The lists of `select_gates`, against the list of first occurrences of all that is added.
use modern_c.Prelude.{
  String, true, false, List, [], ◌∷◌, ◌++◌, ◌≡◌, refl, ◌∙◌, ap, sym, has, has-append, same_text,
  same_text_iff, not, ◌&&◌, if◌then◌else◌, NoRepeats, Bool-cases, inl, inr, arith,
}
use modern_c.Gates.Select.{Picked, no_items, add_new, add_all}

-- The elements that are not in a second list.
abbrev pub minus : List String → List String → List String
minus [] ys = []
minus (x ∷ xs) ys = let rest = minus xs ys in if has x ys then rest else x ∷ rest

-- Every element at its first occurrence only.
abbrev pub first_seen : List String → List String
first_seen [] = []
first_seen (x ∷ xs) = x ∷ minus (first_seen xs) (x ∷ [])

minus-nil : (xs : List String) → minus xs [] ≡ xs
unfolding has
minus-nil [] = refl
minus-nil (x ∷ xs) = ap (λ (ys : List String). x ∷ ys) (minus-nil xs)

-- What is in the second list anyway may be taken out before.
minus-minus_one :
    (x : String) (xs ys : List String)
    → has x ys ≡ true
    → minus (minus xs (x ∷ [])) ys ≡ minus xs ys
unfolding has
minus-minus_one x [] ys h = refl
minus-minus_one x (z ∷ xs) ys h = elim (Bool-cases (same_text z x)) [
  | inl e ↦ let same = (same_text_iff z x).0 e in rw (e, same, h) (minus-minus_one x xs ys h)
  | inr e ↦ rw (e, minus-minus_one x xs ys h)
]

minus-append :
    (x : String) (xs ys : List String) → minus xs (ys ++ x ∷ []) ≡ minus (minus xs (x ∷ [])) ys
unfolding has
minus-append x [] ys = refl
minus-append x (z ∷ xs) ys =
    rw (has-append z ys (x ∷ []), minus-append x xs ys)
      (elim (Bool-cases (same_text z x)) [
        | inl e ↦ rw e (ground arith)
        | inr e ↦ rw e (ground arith)
      ])

pub has-minus :
    (x : String) (xs ys : List String) → has x (minus xs ys) ≡ (has x xs && not (has x ys))
unfolding has
has-minus x [] ys = refl
has-minus x (z ∷ xs) ys = elim (Bool-cases (same_text x z)) [
  | inl e ↦
      let same = (same_text_iff x z).0 e in
      rw same (ground (arith, has-minus z xs ys, same_text_iff z z))
  | inr e ↦ ground (arith, has-minus x xs ys)
]

pub has-first_seen : (x : String) (xs : List String) → has x (first_seen xs) ≡ has x xs
unfolding has
has-first_seen x [] = refl
has-first_seen x (y ∷ xs) =
    ground (arith, has-minus x (first_seen xs) (y ∷ []), has-first_seen x xs)

NoRepeats-minus : (xs ys : List String) → NoRepeats xs → NoRepeats (minus xs ys)
unfolding has
NoRepeats-minus [] ys h = tt
NoRepeats-minus (x ∷ xs) ys (n, h) = elim (Bool-cases (has x ys)) [
  | inl e ↦ rw e (NoRepeats-minus xs ys h)
  | inr e ↦ rw e (rw (has-minus x xs ys, n) refl, NoRepeats-minus xs ys h)
]

pub NoRepeats-first_seen : (xs : List String) → NoRepeats (first_seen xs)
unfolding has
NoRepeats-first_seen [] = tt
NoRepeats-first_seen (x ∷ xs) = (
  ground (arith, has-minus x (first_seen xs) (x ∷ []), same_text_iff x x),
  NoRepeats-minus (first_seen xs) (x ∷ []) (NoRepeats-first_seen xs),
)

-- The set holds what the list holds.
abbrev pub Tidy : Picked → Type 0
Tidy p = (x : String) → has x p.seen ≡ has x p.items

add_new-Tidy : (x : String) (p : Picked) → Tidy p → Tidy (add_new x p)
unfolding add_new has
add_new-Tidy x p h y = elim (Bool-cases (has x p.seen)) [
  | inl e ↦ rw e (h y)
  | inr e ↦ rw (e, has-append y p.items (x ∷ [])) (ground (arith, h y))
]

append_assoc-one :
    (xs : List String) (x : String) (ys : List String) → (xs ++ x ∷ []) ++ ys ≡ xs ++ x ∷ ys
append_assoc-one [] x ys = refl
append_assoc-one (z ∷ xs) x ys = ap (λ (zs : List String). z ∷ zs) (append_assoc-one xs x ys)

append_nil : (xs : List String) → xs ++ [] ≡ xs
append_nil [] = refl
append_nil (x ∷ xs) = ap (λ (zs : List String). x ∷ zs) (append_nil xs)

-- One element more, in front of what is still to be added.
add_new-items :
    (x : String) (xs : List String) (p : Picked)
    → Tidy p
    → (add_new x p).items ++ minus xs (add_new x p).items
      ≡ p.items ++ minus (x ∷ minus xs (x ∷ [])) p.items
unfolding add_new
add_new-items x xs p h = elim (Bool-cases (has x p.seen)) [
  | inl e ↦
      let old : has x p.items ≡ true = sym (h x) ∙ e in
      rw (e, old, minus-minus_one x xs p.items old)
  | inr e ↦
      let new : has x p.items ≡ false = sym (h x) ∙ e in
      rw (e, new, ← minus-append x xs p.items)
        (append_assoc-one p.items x (minus xs (p.items ++ x ∷ [])))
]

add_all-items :
    (xs : List String) (p : Picked)
    → Tidy p
    → (add_all xs p).items ≡ p.items ++ minus (first_seen xs) p.items
unfolding add_all
add_all-items [] p h = sym (append_nil p.items)
add_all-items (x ∷ xs) p h =
    add_all-items xs (add_new x p) (add_new-Tidy x p h) ∙ add_new-items x (first_seen xs) p h

-- From nothing, the list is that of the first occurrences.
pub add_all-first_seen : (xs : List String) → (add_all xs no_items).items ≡ first_seen xs
add_all-first_seen xs = add_all-items xs no_items (λ x. refl) ∙ minus-nil (first_seen xs)
