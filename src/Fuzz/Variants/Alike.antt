-- ===== src/Fuzz/Variants/Alike.antt =====
-- When the oracles of tools/fuzz/mcfuzz.py on variants of one program have no finding.
use modern_c.Prelude.{
  some_not_none, ◌≡◌, refl, ◌↔◌, inl, inr, ap, true, Option, none, some, same_text_iff,
  Option-cases, arith, ==_iff,
}
use modern_c.Fuzz.Numbers.{ℤ, pos, negsuc, same_int}
use modern_c.Fuzz.Differential.{Ran, succeeds}
use modern_c.Fuzz.Variants.{
  Done, compare_variants, compiles, compare_built_variants, oracle_metamorphic, oracle_optlevel,
}

same_int_iff : (m n : ℤ) → (same_int m n ≡ true) ↔ (m ≡ n)
same_int_iff (pos m) (pos n) = (λ e. ap pos ((==_iff m n).0 e), λ e. (==_iff m n).1 cc)
same_int_iff (negsuc m) (negsuc n) = (λ e. ap negsuc ((==_iff m n).0 e), λ e. (==_iff m n).1 cc)
same_int_iff (pos m) (negsuc n) = (λ e. absurd cc, λ e. absurd cc)
same_int_iff (negsuc m) (pos n) = (λ e. absurd cc, λ e. absurd cc)

-- The same return code, and the same output where it is zero.
abbrev pub Alike : Ran → Ran → Type 0
Alike a b = (a.returncode ≡ b.returncode) × (succeeds a.returncode ≡ true → a.stdout ≡ b.stdout)

compare_variants_iff : (a b : Ran) → (compare_variants a b ≡ none) ↔ Alike a b
unfolding compare_variants
compare_variants_iff a b =
    ground (arith, same_int_iff a.returncode b.returncode, same_text_iff a.stdout b.stdout)

-- Both built programs, where both are built.
abbrev pub BothAlike : Option Ran → Option Ran → Type 0
BothAlike (some a) (some b) = Alike a b
BothAlike _ _ = Unit

-- The optimization levels have no finding if and only if the two programs, where both are built, return
-- the same code, and print the same where it is zero.
pub oracle_optlevel_iff : (o0 o2 : Option Ran) → (oracle_optlevel o0 o2 ≡ none) ↔ BothAlike o0 o2
unfolding oracle_optlevel
oracle_optlevel_iff none o2 = (λ e. tt, λ h. refl)
oracle_optlevel_iff (some a) none = (λ e. tt, λ h. refl)
oracle_optlevel_iff (some a) (some b) = compare_variants_iff a b

compiles_iff :
    (check emit_c : Done)
    → (compiles check emit_c ≡ none)
      ↔ ((succeeds check.returncode ≡ true) × (succeeds emit_c.returncode ≡ true))
unfolding compiles
compiles_iff check emit_c = ground arith

-- Where the program is built, its variant is, and they are alike.
abbrev pub VariantAlike : Option Ran → Option Ran → Type 0
VariantAlike none var = Unit
VariantAlike (some base) none = ⊥
VariantAlike (some base) (some var) = Alike base var

compare_built_variants_iff :
    (base var : Option Ran) → (compare_built_variants base var ≡ none) ↔ VariantAlike base var
unfolding compare_built_variants
compare_built_variants_iff none var = (λ e. tt, λ h. refl)
compare_built_variants_iff (some a) none = (λ e. absurd cc, λ h. absurd h)
compare_built_variants_iff (some a) (some b) = compare_variants_iff a b

-- The metamorphic oracle has no finding if and only if the variant passes `check` and `emit-c`, and where
-- the program is built, the variant is built too, returns the same code, and prints the same where that
-- is zero.
pub oracle_metamorphic_iff :
    (check emit_c : Done) (base var : Option Ran)
    → (oracle_metamorphic check emit_c base var ≡ none) ↔ (
        ((succeeds check.returncode ≡ true) × (succeeds emit_c.returncode ≡ true))
        × VariantAlike base var)
unfolding oracle_metamorphic
oracle_metamorphic_iff check emit_c base var = elim (Option-cases (compiles check emit_c)) [
  | inl e ↦
      rw (e, oracle_metamorphic)
        (
          λ h. ((compiles_iff check emit_c).0 e, (compare_built_variants_iff base var).0 h),
          λ (p, h). (compare_built_variants_iff base var).1 h,
        )
  | inr (f, e) ↦
      rw (e, oracle_metamorphic)
        (λ h. absurd cc, λ (p, h). absurd (some_not_none e ((compiles_iff check emit_c).1 p)))
]
