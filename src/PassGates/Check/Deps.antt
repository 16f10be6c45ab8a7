-- ===== src/PassGates/Check/Deps.antt =====
-- The dependencies of m0 that `m0_dependencies` of tools/ci/pass-gates.py finds.
use modern_c.Prelude.{
  ◌≡◌, refl, ◌⊎◌, String, inl, inr, List, [], ◌∷◌, arith, size, has, find_all, same_text_iff,
  NoRepeats, Bool-cases,
}
use modern_c.PassGates.Scan.{Failure, block_after, dependency, set_of, m0_dependencies}

abbrev pub m0_marker : String
m0_marker = "const m0_step = b.step(\"m0\""

abbrev pub fast_marker : String
fast_marker = "const fast_step = b.step(\"fast\""

-- A set has no element twice, and the elements of the list.
set_of-NoRepeats :
    (xs : List String) → NoRepeats (set_of xs) × ((x : String) → has x (set_of xs) ≡ has x xs)
unfolding set_of has
set_of-NoRepeats [] = (tt, λ x. refl)
set_of-NoRepeats (y ∷ ys) =
    let (once, same) = set_of-NoRepeats ys in
    elim (Bool-cases (has y ys)) [
      | inl e ↦ rw (e) (once, λ x. ground (arith, same x, same_text_iff x y, e))
      | inr e ↦ rw (e) ((ground (arith, same y, e), once), λ x. ground (arith, same x))
    ]

-- The names in the block of m0, each once.
pub record Dependencies (source : String) (deps : List String) : Type 0 where
  pub block : String
  pub block_found : block_after source m0_marker fast_marker ≡ inr block
  pub once : NoRepeats deps
  pub named : (x : String) → has x deps ≡ has x (find_all dependency (size block) block)

Failure-cases :
    (r : Failure ⊎ String) → ((f : Failure) × (r ≡ inl f)) ⊎ ((block : String) × (r ≡ inr block))
Failure-cases (inl f) = inl (f, refl)
Failure-cases (inr block) = inr (block, refl)

pub m0_dependencies-Dependencies :
    (source : String) (deps : List String)
    → m0_dependencies source ≡ inr deps
    → Dependencies source deps
unfolding m0_dependencies
m0_dependencies-Dependencies source deps e =
    elim (Failure-cases (block_after source m0_marker fast_marker)) [
      | inl (failure, f) ↦ let never = rw (f, m0_dependencies) at e in absurd cc
      | inr (block, f) ↦
          let found = rw (f, m0_dependencies) at e in
          let same : set_of (find_all dependency (size block) block) ≡ deps = cc in
          let (once, named) = set_of-NoRepeats (find_all dependency (size block) block) in
          record {
            block = block;
            block_found = f;
            once = rw (← same) once;
            named = rw (← same) named;
          }
    ]
