-- ===== src/PassGates/Check/Wired.antt =====
-- What `check_static` of tools/ci/pass-gates.py has found when it passes.
use modern_c.Prelude.{
  ℕ, ◌≤◌, ◌≡◌, refl, String, Bool, true, false, not, ◌↔◌, inl, inr, List, [], ◌∷◌, Option, some,
  arith, ltb, length, is_cons, has, same_text_iff, minus, Within, minus-Within, mentions, All,
  NoRepeats, Bool-cases,
}
use modern_c.Fuzz.Result.{
  ◌>>=◌, bind-inr, Gives, Gives-step, Gives-last, inr-Gives, need-inr, inr-need,
}
use modern_c.Json.{Json}
use modern_c.PassGates.Scan.{
  Failure, missing_file, below_floor, unsupported_build_tier, not_dependencies, stale_snippet,
  m0_dependencies,
}
use modern_c.PassGates.Manifest.{
  require, repeated, require_unique, read, ci_pass_assertion_names, ci_pass_assertion_build_tier,
  ci_pass_assertion_min_count, require_manifest_count_floor,
}
use modern_c.PassGates.Check.Deps.{Dependencies, m0_dependencies-Dependencies}
use modern_c.PassGates.Check.{
  min_m0_dependencies, tiers_path, ci_path, required_snippets, stale_fragments, check_arrays,
  check_snippets, check_fragments, check_static,
}

pub require_iff : (b : Bool) (failure : Failure) → (require b failure ≡ inr tt) ↔ (b ≡ true)
unfolding require
require_iff true failure = (λ e. refl, λ e. refl)
require_iff false failure = (λ e. absurd cc, λ e. absurd cc)

-- No name of the second list is in the first.
Apart : List String → List String → Type 0
Apart seen names = (x : String) → has x names ≡ true → has x seen ≡ false

repeated-Apart :
    (seen names : List String)
    → is_cons (repeated seen names) ≡ false
    → NoRepeats names × Apart seen names
unfolding repeated Apart has
repeated-Apart seen [] h = (tt, λ x e. cc)
repeated-Apart seen (n ∷ ns) h = elim (Bool-cases (has n seen)) [
  | inl e ↦ let never = rw (e, repeated) at h in absurd cc
  | inr e ↦
      let (others, apart) = repeated-Apart (n ∷ seen) ns (rw (e, repeated) at h) in
      (
        (ground (arith, same_text_iff n n, apart n), others),
        λ x ex. ground (arith, ex, e, same_text_iff x n, apart x),
      )
]

Apart-repeated :
    (seen names : List String)
    → NoRepeats names
    → Apart seen names
    → is_cons (repeated seen names) ≡ false
unfolding repeated Apart has
Apart-repeated seen [] h g = refl
Apart-repeated seen (n ∷ ns) (fresh, h) g =
    let unseen : has n seen ≡ false = g n (ground (arith, same_text_iff n n)) in
    rw (unseen, repeated)
      (Apart-repeated (n ∷ seen) ns h (λ x ex. ground (arith, ex, fresh, same_text_iff x n, g x)))

pub require_unique_iff :
    (label : String) (names : List String) → (require_unique label names ≡ inr tt) ↔ NoRepeats names
unfolding require_unique Apart has
require_unique_iff label names = (
  λ e. (repeated-Apart [] names (ground (arith, (require_iff _ _).0 e))).0,
  λ h. (require_iff _ _).1 (ground (arith, Apart-repeated [] names h (λ x e. refl))),
)

check_snippets_iff :
    (ci : String) (snippets : List String)
    → (check_snippets ci snippets ≡ inr tt) ↔ All (λ s. mentions s ci ≡ true) snippets
unfolding check_snippets
check_snippets_iff ci [] = (λ e. tt, λ h. refl)
check_snippets_iff ci (s ∷ rest) = (
  λ e.
      let (done, found, others) = bind-inr e in
      ((require_iff (mentions s ci) _).0 found, (check_snippets_iff ci rest).0 others),
  λ (found, others).
      rw ((require_iff (mentions s ci) _).1 found, ◌>>=◌) ((check_snippets_iff ci rest).1 others),
)

check_fragments_iff :
    (ci : String) (fragments : List String)
    → (check_fragments ci fragments ≡ inr tt) ↔ All (λ s. mentions s ci ≡ false) fragments
unfolding check_fragments
check_fragments_iff ci [] = (λ e. tt, λ h. refl)
check_fragments_iff ci (s ∷ rest) = (
  λ e.
      let (done, gone, others) = bind-inr e in
      let absent = (require_iff (not (mentions s ci)) (stale_snippet s)).0 gone in
      (ground (arith, absent), (check_fragments_iff ci rest).0 others),
  λ (gone, others).
      let fresh : not (mentions s ci) ≡ true = ground (arith, gone) in
      rw ((require_iff (not (mentions s ci)) _).1 fresh, ◌>>=◌)
        ((check_fragments_iff ci rest).1 others),
)

-- The tiers, the manifest and the workflow as they have to be.
pub record Wired (files : String → Option String) (loads : String → Option Json) : Type 0 where
  pub source : String
  pub source_read : files tiers_path ≡ some source
  pub deps : List String
  pub deps_found : m0_dependencies source ≡ inr deps
  pub deps_named : Dependencies source deps
  pub deps_floor : min_m0_dependencies ≤ length deps
  pub gates : List String
  pub gates_listed : ci_pass_assertion_names files loads "ci-m0-pass" ≡ inr gates
  pub gates_once : NoRepeats gates
  pub minimum : ℕ
  pub minimum_listed : ci_pass_assertion_min_count files loads "ci-m0-pass" ≡ inr minimum
  pub gates_floor : minimum ≤ length gates
  pub tier_listed : ci_pass_assertion_build_tier files loads "ci-m0-pass" ≡ inr "m0"
  pub gates_built : Within gates deps
  pub ci : String
  pub ci_read : files ci_path ≡ some ci
  pub called : All (λ s. mentions s ci ≡ true) required_snippets
  pub derived : All (λ s. mentions s ci ≡ false) stale_fragments

module _ (files : String → Option String) (loads : String → Option Json) where
  floor_listed :
      (gates : List String)
      → require_manifest_count_floor files loads "ci-m0-pass" gates ≡ inr tt
      → (minimum : ℕ) × (ci_pass_assertion_min_count files loads "ci-m0-pass" ≡ inr minimum)
        × (minimum ≤ length gates)
  unfolding require_manifest_count_floor
  floor_listed gates e =
      let (minimum, listed, enough) = bind-inr e in
      (minimum, listed, ground (arith, (require_iff (not (ltb (length gates) minimum)) _).0 enough))

  check_static-Gives : Gives (λ done. Wired files loads) (check_static files loads)
  unfolding check_static read
  check_static-Gives =
      let Q = λ (done : Unit {0}). Wired files loads in
      Gives-step Q (read files tiers_path) _ (λ source e1.
        Gives-step Q (m0_dependencies source) _ (λ deps e2. Gives-step Q _ _ (λ u3 e3.
          Gives-step Q (ci_pass_assertion_names files loads "ci-m0-pass") _ (λ gates e4.
            Gives-step Q _ _ (λ u5 e5. Gives-step Q _ _ (λ u6 e6. Gives-step Q _ _ (λ tier e7.
              Gives-step Q _ _ (λ u8 e8. Gives-step Q _ _ (λ u9 e9. Gives-step Q _ _ (λ u10 e10.
                Gives-step Q _ _ (λ ci e11. Gives-step Q _ _ (λ u12 e12.
                  Gives-last Q (check_fragments ci stale_fragments) (λ u13 e13.
                    let (minimum, listed, floor) = floor_listed gates e6 in
                    let named = (same_text_iff tier "m0").0 ((require_iff _ _).0 e8) in
                    record {
                      source = source;
                      source_read = need-inr _ e1;
                      deps = deps;
                      deps_found = e2;
                      deps_named = m0_dependencies-Dependencies source deps e2;
                      deps_floor = ground (arith, (require_iff _ _).0 e3);
                      gates = gates;
                      gates_listed = e4;
                      gates_once = (require_unique_iff _ gates).0 e5;
                      minimum = minimum;
                      minimum_listed = listed;
                      gates_floor = floor;
                      tier_listed = rw (← named) e7;
                      gates_built =
                          (minus-Within gates deps).0 (ground (arith, (require_iff _ _).0 e9));
                      ci = ci;
                      ci_read = need-inr _ e11;
                      called = (check_snippets_iff ci required_snippets).0 e12;
                      derived = (check_fragments_iff ci stale_fragments).0 e13;
                    })))))))))))))

  Wired-check_static : Wired files loads → check_static files loads ≡ inr tt
  unfolding check_static read require_manifest_count_floor check_arrays
  Wired-check_static w =
      let enough : not (ltb (length w.deps) min_m0_dependencies) ≡ true =
        ground (arith, w.deps_floor) in
      let counted : not (ltb (length w.gates) w.minimum) ≡ true = ground (arith, w.gates_floor) in
      let built : not (is_cons (minus w.gates w.deps)) ≡ true =
        ground (arith, (minus-Within w.gates w.deps).1 w.gates_built) in
      rw
        (
          inr-need (missing_file tiers_path) w.source_read,
          ◌>>=◌,
          w.deps_found,
          (require_iff _ (below_floor "m0" (length w.deps) min_m0_dependencies)).1 enough,
          w.gates_listed,
          (require_unique_iff "ci_pass_assertions.ci-m0-pass" w.gates).1 w.gates_once,
          w.minimum_listed,
          (require_iff _ (below_floor "ci-m0-pass" (length w.gates) w.minimum)).1 counted,
          w.tier_listed,
          (require_iff true (unsupported_build_tier "m0")).1 refl,
          (require_iff _ (not_dependencies (minus w.gates w.deps))).1 built,
          inr-need (missing_file ci_path) w.ci_read,
          (check_snippets_iff w.ci required_snippets).1 w.called,
        )
        ((check_fragments_iff w.ci stale_fragments).1 w.derived)

  -- The static check passes if and only if the tiers, the manifest and the workflow can be read and
  -- agree: m0 has 14 dependencies or more, which are the different names in its block, the gates that CI asserts are listed once each, are
  -- as many as the manifest demands, belong to the tier m0 and are among its dependencies, and the
  -- workflow holds the snippets that call the tool and not the fragment of the old list.
  pub check_static_iff : (check_static files loads ≡ inr tt) ↔ Wired files loads
  check_static_iff = (
    λ e. inr-Gives (λ done. Wired files loads) (check_static files loads) tt e check_static-Gives,
    Wired-check_static,
  )
