-- ===== src/Fuzz/Variants.antt =====
-- Oracles of tools/fuzz/mcfuzz.py that run one backend's programs: `oracle_sanitize`, `oracle_asan`,
-- `oracle_metamorphic`, `oracle_optlevel` and `oracle_floatbits`, with `_compile_run_c` and `_compiles`.
-- What compilers, linker and programs give is an argument.
pub mod Alike
use Prim.Native.String as Texts
use modern_c.Prelude.{
  ℕ, zero, suc, String, Bool, true, false, not, ◌&&◌, ◌||◌, List, [], ◌∷◌, Option, none, some,
  mentions, lstrip, rstrip, strip, same_text, ◌⊎◌, inl, inr, if◌then◌else◌,
}
use modern_c.Fuzz.Keys.{splitlines}
use modern_c.Fuzz.Numbers.{ℤ, same_int}
use modern_c.Fuzz.Artifacts.{Process}
use modern_c.Fuzz.Format.{first_error}
use modern_c.Fuzz.Differential.{Ran, Built, Divergence, succeeds, differential_compare}

-- A program that ran, with its errors.
pub record Done : Type 0 where
  pub returncode : ℤ
  pub stdout : String
  pub stderr : String

pub data SanFinding : Type 0 where
  c_failed : SanFinding
  link_failed : SanFinding
  reported : String → SanFinding
  aborted : ℤ → SanFinding

-- The first line with the marker, else the return code.
unfoldable pub report_of : String → ℤ → List String → SanFinding
unfolding mentions
report_of marker code [] = aborted code
report_of marker code (l ∷ ls) =
    let rest = report_of marker code ls in if mentions marker l then reported l else rest

-- What `oracle_sanitize` and `oracle_asan` have in common: the emitted C is built with a sanitizer,
-- which writes the marker. The output is decoded.
unfoldable pub sanitized :
    (marker : String) → (c_error : Option String) → (linked : Bool) → Done → Option SanFinding
unfolding report_of mentions splitlines
sanitized marker (some err) linked r = some c_failed
sanitized marker none linked r =
    let msg = Texts.◌++◌ r.stdout r.stderr in
    if not linked
    then some link_failed
    else if mentions marker msg || not (succeeds r.returncode)
    then some (report_of marker r.returncode (splitlines msg))
    else none

-- `oracle_sanitize(env, seed, src_path, work)`.
unfoldable pub oracle_sanitize : Option String → Bool → Done → Option SanFinding
unfolding sanitized
oracle_sanitize c_error linked r = sanitized "runtime error" c_error linked r

-- `oracle_asan(env, seed, src_path, work)`.
unfoldable pub oracle_asan : Option String → Bool → Done → Option SanFinding
unfolding sanitized
oracle_asan c_error linked r = sanitized "ERROR: AddressSanitizer:" c_error linked r

-- `_compile_run_c(env, src_path, work, tag, opt)`.
unfoldable pub compile_run_c : Option String → Bool → Ran → Option Ran
compile_run_c (some err) linked ran = none
compile_run_c none linked ran = if linked then some ran else none

pub data VariantFinding : Type 0 where
  variant_rejected : (stage err : String) → VariantFinding
  variant_not_built : VariantFinding
  status_differs : ℤ → ℤ → VariantFinding
  output_differs : String → String → VariantFinding

-- The status, and the output where both succeed.
unfoldable pub compare_variants : Ran → Ran → Option VariantFinding
unfolding lstrip rstrip
compare_variants base var =
    if not (same_int base.returncode var.returncode)
    then some (status_differs base.returncode var.returncode)
    else if succeeds base.returncode && not (same_text base.stdout var.stdout)
    then some (output_differs (strip base.stdout) (strip var.stdout))
    else none

-- `_compiles(env, src_path)`: the stage that fails, with its errors, if one does.
unfoldable pub compiles : (check emit_c : Done) → Option VariantFinding
unfolding first_error
compiles check emit_c =
    if not (succeeds check.returncode)
    then some (variant_rejected "check" (first_error check.stderr))
    else if not (succeeds emit_c.returncode)
    then some (variant_rejected "emit-c" (first_error emit_c.stderr))
    else none

unfoldable pub compare_built_variants : Option Ran → Option Ran → Option VariantFinding
unfolding compare_variants
compare_built_variants none var = none
compare_built_variants (some base) none = some variant_not_built
compare_built_variants (some base) (some var) = compare_variants base var

-- `oracle_metamorphic(env, seed, src_path, work)`: the two stages on the variant, and what
-- `_compile_run_c` gives for both sources.
unfoldable pub oracle_metamorphic :
    (check emit_c : Done) → (base var : Option Ran) → Option VariantFinding
unfolding compiles compare_built_variants
oracle_metamorphic check emit_c base var = elim (compiles check emit_c) [
  | some finding ↦ some finding
  | none ↦ compare_built_variants base var
]

-- `oracle_optlevel(env, seed, src_path, work)`.
unfoldable pub oracle_optlevel : Option Ran → Option Ran → Option VariantFinding
unfolding compare_variants
oracle_optlevel none o2 = none
oracle_optlevel (some o0) none = none
oracle_optlevel (some o0) (some o2) = compare_variants o0 o2

-- `oracle_floatbits(env, seed, src_path, work)`: the check of the regenerated program, and what the
-- tools give for it.
unfoldable pub oracle_floatbits : ℤ → Built → Option Divergence
unfolding differential_compare
oracle_floatbits check b = if not (succeeds check) then none else differential_compare b
