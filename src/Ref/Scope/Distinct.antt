-- ===== src/Ref/Scope/Distinct.antt =====
-- The invariant of the dict `scope`: no name stands twice. So what `vars_of` lists has its type.
use modern_c.Prelude.{
  is_cons, ◌≡◌, refl, arith, true, false, Bool-cases, inl, inr, some, [], ◌∷◌, All, All-imp,
}
use modern_c.Ref.Types.{RefType, Ident, same_name, same_type}
use modern_c.Ref.Scope.{
  Scope, type_of, declare, vars_of, values_of, names_of, same_name_iff, same_type_iff,
}

-- No name stands twice in a scope.
abbrev pub Fresh : Ident → Scope → Type 0
Fresh n [] = Unit
Fresh n ((m, t) ∷ s) = (same_name m n ≡ false) × Fresh n s

abbrev pub Distinct : Scope → Type 0
Distinct [] = Unit
Distinct ((n, t) ∷ s) = Fresh n s × Distinct s

-- A name of a scope behind a name that does not stand in it.
Fresh-type_of :
    (s : Scope) (m n : Ident) (rt : RefType)
    → Fresh m s
    → type_of s n ≡ some rt
    → same_name m n ≡ false
unfolding type_of
Fresh-type_of [] m n rt f h = cc
Fresh-type_of ((k, t) ∷ s) m n rt f h =
    ground
      (arith, same_name_iff k n, same_name_iff m n, same_name_iff k m, Fresh-type_of s m n rt f.1)

type_of-cons :
    (s : Scope) (m n : Ident) (t rt : RefType)
    → Fresh m s
    → type_of s n ≡ some rt
    → type_of ((m, t) ∷ s) n ≡ some rt
unfolding type_of
type_of-cons s m n t rt f h = rw (Fresh-type_of s m n rt f h) h

type_of_head : (s : Scope) (n : Ident) (t : RefType) → type_of ((n, t) ∷ s) n ≡ some t
unfolding type_of
type_of_head s n t = rw ((same_name_iff n n).1 refl)

-- Every name that `vars_of` lists has the type asked for.
pub vars_of-All :
    (s : Scope) (rt : RefType) → Distinct s → All (λ n. type_of s n ≡ some rt) (vars_of s rt)
unfolding vars_of
vars_of-All [] rt d = tt
vars_of-All ((n, t) ∷ s) rt d =
    let rest : All (λ m. type_of ((n, t) ∷ s) m ≡ some rt) (vars_of s rt) =
      All-imp _ _ (vars_of s rt) (λ m h. type_of-cons s n m t rt d.0 h) (vars_of-All s rt d.1) in
    elim (Bool-cases (same_type t rt)) [
      | inl e ↦ rw e (rw (← (same_type_iff t rt).0 e) (type_of_head s n t), rest)
      | inr e ↦ rw e rest
    ]

-- Every type of a scope is that of some variable.
pub values_of-All : (s : Scope) → All (λ rt. is_cons (vars_of s rt) ≡ true) (values_of s)
unfolding vars_of
values_of-All [] = tt
values_of-All ((n, t) ∷ s) = (
  rw ((same_type_iff t t).1 refl),
  All-imp _ _ (values_of s) (λ rt h. is_cons_of_cons rt h) (values_of-All s),
)
  where
    is_cons_of_cons :
        (rt : RefType) → is_cons (vars_of s rt) ≡ true → is_cons (vars_of ((n, t) ∷ s) rt) ≡ true
    is_cons_of_cons rt h = elim (Bool-cases (same_type t rt)) [ inl e ↦ rw e | inr e ↦ rw e h ]

pub names_of-All :
    (s : Scope) → Distinct s → All (λ n. (rt : RefType) × (type_of s n ≡ some rt)) (names_of s)
names_of-All [] d = tt
names_of-All ((n, t) ∷ s) d = (
  (t, type_of_head s n t),
  All-imp _ _ (names_of s) (λ m (rt, h). (rt, type_of-cons s n m t rt d.0 h)) (names_of-All s d.1),
)

Fresh-declare :
    (s : Scope) (m n : Ident) (t : RefType)
    → same_name n m ≡ false
    → Fresh m s
    → Fresh m (declare s n t)
unfolding declare
Fresh-declare [] m n t e f = (e, tt)
Fresh-declare ((k, u) ∷ s) m n t e f = elim (Bool-cases (same_name k n)) [
  | inl same ↦ rw same f
  | inr other ↦ rw other (f.0, Fresh-declare s m n t e f.1)
]

-- A declaration keeps the names distinct.
pub Distinct-declare : (s : Scope) (n : Ident) (t : RefType) → Distinct s → Distinct (declare s n t)
unfolding declare
Distinct-declare [] n t d = (tt, tt)
Distinct-declare ((k, u) ∷ s) n t d = elim (Bool-cases (same_name k n)) [
  | inl same ↦ rw same d
  | inr other ↦ rw other (
    Fresh-declare s k n t (ground (arith, same_name_iff k n, same_name_iff n k)) d.0,
    Distinct-declare s n t d.1,
  )
]
