-- ===== src/Ref/Scope.antt =====
-- The dict `scope` of `RefGen`: names with their types, in the order in which they were declared.
pub mod Distinct
pub mod Bounded
use modern_c.Prelude.{
  map, map, ◌≡◌, refl, arith, ◌↔◌, true, if◌then◌else◌, Option, none, some, List, [], ◌∷◌,
}
use modern_c.Ref.Types.{RefType, Ident, same_name, same_type}

abbrev pub Scope : Type 0
Scope = List (Ident × RefType)

-- `self.scope[n]`.
unfoldable pub type_of : Scope → Ident → Option RefType
type_of [] n = none
type_of ((m, t) ∷ s) n = if same_name m n then some t else type_of s n

-- `self.scope[n] = rt`: a new key goes to the end.
unfoldable pub declare : Scope → Ident → RefType → Scope
declare [] n rt = (n, rt) ∷ []
declare ((m, t) ∷ s) n rt = if same_name m n then (m, rt) ∷ s else (m, t) ∷ declare s n rt

-- `[n for n, t in self.scope.items() if t == rt]`.
pub vars_of : Scope → RefType → List Ident
vars_of [] rt = []
vars_of ((n, t) ∷ s) rt = let rest = vars_of s rt in if same_type t rt then n ∷ rest else rest

-- `self.scope.values()`.
abbrev pub values_of : Scope → List RefType
values_of s = map (λ (n, t). t) s

-- `[n for n in self.scope]`.
abbrev pub names_of : Scope → List Ident
names_of s = map (λ (n, t). n) s

pub same_name_iff : (a b : Ident) → (same_name a b ≡ true) ↔ (a ≡ b)
same_name_iff a b = ground arith

pub same_type_iff : (a b : RefType) → (same_type a b ≡ true) ↔ (a ≡ b)
same_type_iff a b = ground arith

pub type_of-declare :
    (s : Scope) (m n : Ident) (t : RefType)
    → type_of (declare s m t) n ≡ (if same_name m n then some t else type_of s n)
unfolding type_of declare
type_of-declare [] m n t = refl
type_of-declare ((k, u) ∷ s) m n t =
    ground (arith, same_name_iff k m, same_name_iff k n, same_name_iff m n, type_of-declare s m n t)
