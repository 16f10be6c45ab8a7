-- ===== src/Ref/Examples.antt =====
-- Tests of the model of tools/fuzz/mcref.py, and its theorems at concrete inputs.
use modern_c.Prelude.{ℕ, ◌+◌, ◌≤◌, ◌^◌, ◌<◌, ◌≡◌, refl, arith, inl, some, [], ◌∷◌, is_cons, true}
use modern_c.Ref.Types.{Ident, v, j, uint, w8, w64}
use modern_c.Ref.Scope.{Scope, type_of, declare}
use modern_c.Ref.Syntax.{mul, lit, var, wadd, Stmt, decl, assign, loop, Block, end, ◌⨾◌}
use modern_c.Ref.Typing.{TopBlock}
use modern_c.Ref.Eval.{Env, empty, store, exec, exec_block, eval_expr, wrap_op, sat_op}
use modern_c.Ref.Eval.Range.{Below, Fits, eval_expr-Below, Fits-declare}
use modern_c.Ref.Eval.Total.{Ends}
use modern_c.Ref.Eval.Runs.{exec_block-Fits}
use modern_c.Ref.Eval.Loops.{unroll, loop-eq-unroll, exec_block-fuel}
use modern_c.Ref.Eval.Ops.{domains_exact, apart, sat_op_nearest}
use modern_c.Ref.Layout.{Field, new_overlay, last_field}
use modern_c.Ref.Layout.Laws.{Laid, Sized, Laid-Sized}
use modern_c.Ref.Random.Rules.{Draws}
use modern_c.Ref.Gen.State.{new_gen}
use modern_c.Ref.Gen.Offsets.{gen_fields}
use modern_c.Ref.Gen.Offsets.Safe.{gen_fields-Laid}
use modern_c.Ref.Gen.Overlays.{overlay_exp}
use modern_c.Ref.Gen.Overlays.Storage.{run_body, overlay_exp-eq-run_body}
use modern_c.Ref.Gen.Switches.{gen_scalar_switch}
use modern_c.Ref.Gen.Constructs.{build}
use modern_c.Ref.Gen.Constructs.Safe.{AddedScalar, gen_scalar_switch-AddedScalar}
use modern_c.Ref.Digest.{evaluate}
use modern_c.Ref.Digest.Range.{evaluate-build}

evaluate-build_example : Draws (λ g. Below (2 ^ 64) (evaluate 5 g)) build
evaluate-build_example = evaluate-build 5 (omega arith)

abbrev v0 : Ident
v0 = record { prefix = v; number = 0 }

abbrev j1 : Ident
j1 = record { prefix = j; number = 1 }

-- `v0` at its start, and the scope that declares it.
abbrev byte_scope : Scope
byte_scope = (v0, uint w8) ∷ []

abbrev byte_env : Env
byte_env = store empty v0 200

nothing-Fits : Fits [] empty
unfolding type_of
nothing-Fits n rt h = cc

byte-Fits : Fits byte_scope byte_env
unfolding declare
byte-Fits = Fits-declare [] empty nothing-Fits v0 (uint w8) 200 (omega arith)

-- `var j1: u64 = 0; while j1 < 3 { ...; v0 = wrapping.add(v0, 100); }`
abbrev spin : Stmt
spin = loop j1 3 (assign v0 (wadd (var v0 (uint w8)) (lit 100 (uint w8)) (uint w8)) ⨾ end)

abbrev spinning : Block
spinning = decl v0 (uint w8) (lit 200 (uint w8)) ⨾ (spin ⨾ end)

abbrev spun : Scope
spun = (v0, uint w8) ∷ (j1, uint w64) ∷ []

spinning_typed : TopBlock [] spinning spun
unfolding type_of declare
spinning_typed = (
  (refl, (refl, omega arith)),
  (
    (refl, omega arith, ((uint w8, refl, (refl, refl, (refl, refl), (refl, omega arith))), tt)),
    refl,
  ),
)

eval_expr-Below_example :
    Below (2 ^ 8) (eval_expr (wadd (var v0 (uint w8)) (lit 100 (uint w8)) (uint w8)) byte_env)
unfolding type_of
eval_expr-Below_example =
    eval_expr-Below byte_scope byte_env byte-Fits
      (wadd (var v0 (uint w8)) (lit 100 (uint w8)) (uint w8)) (uint w8)
      (refl, refl, (refl, refl), (refl, omega arith))

exec_block-Fits_example : Ends (Fits spun) (exec_block 5 spinning empty)
exec_block-Fits_example =
    exec_block-Fits 5 [] spinning spun empty (omega arith) nothing-Fits spinning_typed

exec_block-fuel_example : exec_block 5 spinning empty ≡ exec_block 9 spinning empty
exec_block-fuel_example =
    exec_block-fuel 5 9 [] spinning spun empty (omega arith) (omega arith) nothing-Fits
      spinning_typed

loop-eq-unroll_example :
    exec 5 spin byte_env
    ≡ unroll 3 0 j1
        (λ env.
          exec_block 5
            (assign v0 (wadd (var v0 (uint w8)) (lit 100 (uint w8)) (uint w8)) ⨾ end)
            env)
        (store byte_env j1 0)
unfolding type_of
loop-eq-unroll_example =
    loop-eq-unroll byte_scope 5 j1 3
      (assign v0 (wadd (var v0 (uint w8)) (lit 100 (uint w8)) (uint w8)) ⨾ end) byte_env byte-Fits
      (refl, omega arith, ((uint w8, refl, (refl, refl, (refl, refl), (refl, omega arith))), tt))
      (omega arith)

overlay_exp-eq-run_body_example :
    overlay_exp (new_overlay "OV8" 32) 306164 19506 ≡ run_body 32 306164 0 19506
overlay_exp-eq-run_body_example =
    overlay_exp-eq-run_body "OV8" 32 306164 0 19506 (inl refl, omega arith) (omega arith)

gen_scalar_switch-AddedScalar_example : Draws (AddedScalar new_gen) (gen_scalar_switch new_gen)
gen_scalar_switch-AddedScalar_example = gen_scalar_switch-AddedScalar new_gen

gen_fields-Laid_example : Draws (λ fs. Laid 0 fs × (0 < 3 → is_cons fs ≡ true)) (gen_fields 3 0 0)
gen_fields-Laid_example = gen_fields-Laid 3 0 0

abbrev first_reg : Field
first_reg = record { fname = "of0"; bits = 16; offset = 0; mode = ".read" }

abbrev second_reg : Field
second_reg = record { fname = "of1"; bits = 32; offset = 4; mode = ".write" }

Laid-Sized_example :
    (l : Field) × (last_field (first_reg ∷ second_reg ∷ []) ≡ some l)
    × Sized (first_reg ∷ second_reg ∷ []) l
Laid-Sized_example =
    Laid-Sized 0 first_reg (second_reg ∷ [])
      ((omega arith, omega arith, refl, (omega arith, omega arith, refl, tt)))

domains_exact_example : (wrap_op mul 8 15 17 ≡ 255) × (sat_op mul 8 15 17 ≡ 255)
domains_exact_example = domains_exact mul 8 15 17 tt (omega arith) (omega arith) (omega arith)

sat_op_nearest_example :
    (sat_op mul 8 16 17 < 256)
    × ((z : ℕ) → z < 256 → apart 272 (0 + sat_op mul 8 16 17) ≤ apart 272 (0 + z))
sat_op_nearest_example = sat_op_nearest mul 8 16 17 tt (omega arith) (omega arith)
