-- ===== src/Ref/Scope/Bounded.antt =====
-- The names of a scope come from `_new`: their numbers lie below its count.
use modern_c.Prelude.{ℕ, ◌+◌, ◌<◌, ◌≡◌, refl, arith, false, none, [], ◌∷◌, All}
use modern_c.Ref.Types.{RefType, Ident, same_name}
use modern_c.Ref.Scope.{Scope, type_of, declare}

abbrev pub Bounded : ℕ → Scope → Type 0
Bounded k s = All (λ (n, t). n.number < k) s

same_name_number : (m n : Ident) → m.number < n.number → same_name m n ≡ false
same_name_number m n h = ground arith

-- The name that `_new` makes next is in no scope so far.
pub type_of_new : (s : Scope) (n : Ident) → Bounded n.number s → type_of s n ≡ none
unfolding type_of
type_of_new [] n h = refl
type_of_new ((m, t) ∷ s) n h = rw (same_name_number m n h.0) (type_of_new s n h.1)

pub Bounded-declare :
    (s : Scope) (n : Ident) (t : RefType)
    → Bounded n.number s
    → Bounded (n.number + 1) (declare s n t)
unfolding declare
Bounded-declare [] n t h = (omega arith, tt)
Bounded-declare ((m, u) ∷ s) n t h =
    rw (same_name_number m n h.0) (omega (arith, h.0), Bounded-declare s n t h.1)
