-- ===== src/Ref/Eval.antt =====
-- The `eval` methods of tools/fuzz/mcref.py. A missing key of `env` is `none`; the `RetSignal`
-- exception is an outcome of its own. `While` is given a bound on its rounds.
pub mod Range
pub mod Total
pub mod Runs
pub mod Loops
pub mod Ops
use Prim.Native.Nat.{bit_and, bit_or, bit_xor}
use modern_c.Prelude.{
  ℕ, zero, suc, ◌+◌, ◌-◌, ◌*◌, ◌/◌, ◌%◌, ◌^◌, min, Bool, true, false, not, ltb, leb, ◌==◌,
  if◌then◌else◌, Option, none, some,
}
use modern_c.Ref.Types.{RefType, Kind, plain, wrap, sat, Ident, width, kind, mask, same_name}
use modern_c.Ref.Syntax.{
  Op, add, sub, mul, band, bor, bxor, CmpOp, lt, le, gt, ge, eq, ne, BoolOp, both, either, Source,
  fold_of, number, Expr, lit, var, wadd, bitwise, shr, conv, dom_bin, dom_shr, Cond, cmp, bool_bin,
  Stmt, decl, assign, branch, loop, early_ret, Block, end, ◌⨾◌,
}

-- The dict `env`.
abbrev pub Env : Type 0
Env = Ident → Option ℕ

abbrev pub empty : Env
empty n = none

abbrev pub store : Env → Ident → ℕ → Env
store env n x m = if same_name n m then some x else env m

infixl 5 ◌>>=◌
abbrev pub ◌>>=◌ {ℓ κ} : {A : Type ℓ} {B : Type κ} → Option A → (A → Option B) → Option B
none >>= k = none
some a >>= k = k a

-- `(x - y) & mask(w)`: of a negative difference Python's `&` takes the two's complement.
abbrev pub sub_mask : ℕ → ℕ → ℕ → ℕ
sub_mask w x y = if leb y x then bit_and (x - y) (mask w) else (2 ^ w - (y - x) % 2 ^ w) % 2 ^ w

-- The dispatch of `Bitwise`: an operator that the table lacks is a `KeyError`.
pub bitwise_op : Op → ℕ → ℕ → Option ℕ
bitwise_op band x y = some (bit_and x y)
bitwise_op bor x y = some (bit_or x y)
bitwise_op bxor x y = some (bit_xor x y)
bitwise_op _ x y = none

pub wrap_op : Op → ℕ → ℕ → ℕ → ℕ
wrap_op add w x y = bit_and (x + y) (mask w)
wrap_op sub w x y = sub_mask w x y
wrap_op mul w x y = bit_and (x * y) (mask w)
wrap_op band w x y = bit_and x y
wrap_op bor w x y = bit_or x y
wrap_op bxor w x y = bit_xor x y

-- `max(x - y, 0)` is the subtraction of ℕ. Any operator but `+` and `-` multiplies.
pub sat_op : Op → ℕ → ℕ → ℕ → ℕ
sat_op add w x y = min (x + y) (mask w)
sat_op sub w x y = x - y
sat_op _ w x y = min (x * y) (mask w)

pub dom_op : Kind → Op → ℕ → ℕ → ℕ → ℕ
dom_op wrap op w x y = wrap_op op w x y
dom_op _ op w x y = sat_op op w x y

pub source_val : Source → Env → Option ℕ
source_val (fold_of n rt) env = env n
source_val (number x) env = some x

pub eval_expr : Expr → Env → Option ℕ
eval_expr (lit x rt) env = some x
eval_expr (var n rt) env = env n
eval_expr (wadd a b rt) env = do
  x ← eval_expr a env
  y ← eval_expr b env
  some (bit_and (x + y) (mask (width rt)))
eval_expr (bitwise op a b rt) env = do x ← eval_expr a env; y ← eval_expr b env; bitwise_op op x y
eval_expr (shr a k rt) env = do x ← eval_expr a env; some (x / 2 ^ k)
eval_expr (conv rt s) env = do x ← source_val s env; some (bit_and x (mask (width rt)))
eval_expr (dom_bin op a b rt) env = do
  x ← eval_expr a env
  y ← eval_expr b env
  some (dom_op (kind rt) op (width rt) x y)
eval_expr (dom_shr a k rt) env = do x ← eval_expr a env; some (x / 2 ^ k)

pub cmp_op : CmpOp → ℕ → ℕ → Bool
cmp_op lt x y = ltb x y
cmp_op le x y = leb x y
cmp_op gt x y = ltb y x
cmp_op ge x y = leb y x
cmp_op eq x y = x == y
cmp_op ne x y = not (x == y)

-- `and` and `or` leave the second operand alone where the first decides.
pub eval_cond : Cond → Env → Option Bool
eval_cond (cmp op a b) env = do x ← eval_expr a env; y ← eval_expr b env; some (cmp_op op x y)
eval_cond (bool_bin both a b) env = do
  x ← eval_cond a env
  let rest = eval_cond b env
  if x then rest else some false
eval_cond (bool_bin either a b) env = do
  x ← eval_cond a env
  let rest = eval_cond b env
  if x then some true else rest

-- How a statement ends: it falls through, raises `RetSignal` or `KeyError`, or a loop was cut off.
pub data Outcome : Type 0 where
  normal : Env → Outcome
  ret_signal : ℕ → Outcome
  key_error : Outcome
  cut_off : Outcome

abbrev pub after : Outcome → (Env → Outcome) → Outcome
after (normal env) k = k env
after (ret_signal x) k = ret_signal x
after key_error k = key_error
after cut_off k = cut_off

abbrev pub with_value {ℓ} : {A : Type ℓ} → Option A → (A → Outcome) → Outcome
with_value none k = key_error
with_value (some a) k = k a

-- The rounds of `while env[counter] < bound`: the counter goes up first, then the body runs.
pub rounds : ℕ → Ident → ℕ → (Env → Outcome) → Env → Outcome
rounds zero counter bound body env = cut_off
rounds (suc fuel) counter bound body env = with_value (env counter) λ i.
    let again = after (body (store env counter (i + 1))) (rounds fuel counter bound body) in
    if ltb i bound then again else normal env

mutual
  pub exec : ℕ → Stmt → Env → Outcome
  exec fuel (decl n rt e) env = with_value (eval_expr e env) λ x. normal (store env n x)
  exec fuel (assign n e) env = with_value (eval_expr e env) λ x. normal (store env n x)
  exec fuel (branch c t e) env =
      let taken = exec_block fuel t env in
      let other = exec_block fuel e env in
      with_value (eval_cond c env) λ b. if b then taken else other
  exec fuel (loop counter bound body) env =
      rounds fuel counter bound (λ env'. exec_block fuel body env') (store env counter 0)
  exec fuel (early_ret c s) env = with_value (eval_cond c env) λ b.
      if b
      then with_value (source_val s env) (λ x. ret_signal (bit_and x (mask 64)))
      else normal env

  pub exec_block : ℕ → Block → Env → Outcome
  exec_block fuel end env = normal env
  exec_block fuel (s ⨾ b) env = after (exec fuel s env) (λ env'. exec_block fuel b env')
