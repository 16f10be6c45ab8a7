-- ===== src/Ref/Digest/Range.antt =====
-- Every generated program has a reference value, below 2 ^ 64.
use Prim.Native.Nat.{bit_and, bit_xor}
use modern_c.Prelude.{ℕ, ◌^◌, ◌<◌, ◌≡◌, refl, some, List, [], ◌∷◌, All}
use modern_c.Ref.Types.{Ident, mask}
use modern_c.Ref.Scope.{Scope, type_of}
use modern_c.Ref.Eval.{Env, empty, Outcome, normal, ret_signal, key_error, cut_off, exec_block}
use modern_c.Ref.Eval.Range.{Below, Fits, bit_and-mask-lt}
use modern_c.Ref.Eval.Total.{Ends}
use modern_c.Ref.Eval.Runs.{exec_block-Fits}
use modern_c.Ref.Random.Rules.{Draws, Draws-map}
use modern_c.Ref.Gen.State.{RefGen}
use modern_c.Ref.Gen.Build.Typed.{Live}
use modern_c.Ref.Gen.Constructs.{build}
use modern_c.Ref.Gen.Constructs.Safe.{BuiltCore, build-BuiltCore}
use modern_c.Ref.Digest.{fold_order, core_value, evaluate, extra_value}

fold_order_total :
    (s : Scope) (env : Env) (acc : ℕ) (ns : List Ident)
    → Fits s env
    → All (Live s) ns
    → (x : ℕ) × (fold_order env acc ns ≡ some x)
unfolding fold_order
fold_order_total s env acc [] fits h = (acc, refl)
fold_order_total s env acc (n ∷ ns) fits ((rt, t), h) =
    let (x, p, b) = fits n rt t in
    let (y, q) = fold_order_total s env (bit_xor acc (bit_and x (mask 64))) ns fits h in
    (y, rw (p, fold_order) q)

core_value_total :
    (g : RefGen) (o : Outcome)
    → All (Live g.scope) g.order
    → Ends (Fits g.scope) o
    → (x : ℕ) × (core_value g o ≡ some x)
unfolding core_value
core_value_total g (normal env) ord h = fold_order_total g.scope env 0 g.order h ord
core_value_total g (ret_signal x) ord h = (bit_and x (mask 64), refl)
core_value_total g key_error ord h = absurd h
core_value_total g cut_off ord h = absurd h

nothing_declared : Fits [] empty
unfolding type_of
nothing_declared n rt h = cc

-- A well-typed core evaluates, at five rounds a loop or more.
pub evaluate-Below :
    (fuel : ℕ) (g : RefGen) → 4 < fuel → BuiltCore g → Below (2 ^ 64) (evaluate fuel g)
unfolding evaluate
evaluate-Below fuel g f h =
    let ends = exec_block-Fits fuel [] g.stmts g.scope empty f nothing_declared h.typed in
    let (core, p) = core_value_total g (exec_block fuel g.stmts empty) h.ordered ends in
    (
      bit_and (bit_xor core (extra_value g)) (mask 64),
      rw (p, evaluate),
      bit_and-mask-lt 64 (bit_xor core (extra_value g)),
    )

-- On every tape of draws `build` returns a generator state, and, with more than four rounds granted
-- to a loop, `evaluate` gives that state a value, which is below 2 ^ 64.
pub evaluate-build : (fuel : ℕ) → 4 < fuel → Draws (λ g. Below (2 ^ 64) (evaluate fuel g)) build
evaluate-build fuel f = Draws-map _ _ _ (λ g h. evaluate-Below fuel g f h) build-BuiltCore
