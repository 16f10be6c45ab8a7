-- ===== src/Ref/Digest.antt =====
-- `_extra_value` and `evaluate` of tools/fuzz/mcref.py: the u64 that the program must return.
pub mod Range
use Prim.Native.Nat.{bit_and, bit_xor}
use modern_c.Prelude.{ℕ, String, Option, none, some, List, [], ◌∷◌}
use modern_c.Ref.Types.{Ident, mask}
use modern_c.Ref.Eval.{Env, empty, Outcome, normal, ret_signal, key_error, cut_off, exec_block}
use modern_c.Ref.Gen.State.{RefGen}

-- `acc ^= (val & mask(64))` over the extra terms.
pub xor_terms : ℕ → List (String × ℕ) → ℕ
xor_terms acc [] = acc
xor_terms acc ((n, x) ∷ ts) = xor_terms (bit_xor acc (bit_and x (mask 64))) ts

pub extra_value : RefGen → ℕ
extra_value g = bit_and (xor_terms 0 g.extra_terms) (mask 64)

-- `core ^= (env[n] & mask(64))` over the order: `none` is the `KeyError`.
pub fold_order : Env → ℕ → List Ident → Option ℕ
fold_order env acc [] = some acc
fold_order env acc (n ∷ ns) = elim (env n) [
  | none ↦ none
  | some x ↦ fold_order env (bit_xor acc (bit_and x (mask 64))) ns
]

-- The value of the core; `none` is a `KeyError` or a loop cut off at the bound on its rounds.
pub core_value : RefGen → Outcome → Option ℕ
core_value g (normal env) = fold_order env 0 g.order
core_value g (ret_signal x) = some (bit_and x (mask 64))
core_value g key_error = none
core_value g cut_off = none

pub evaluate : ℕ → RefGen → Option ℕ
evaluate fuel g = elim (core_value g (exec_block fuel g.stmts empty)) [
  | none ↦ none
  | some core ↦ some (bit_and (bit_xor core (extra_value g)) (mask 64))
]
