-- ===== src/Fuzz/Differential.antt =====
-- The oracles of tools/fuzz/mcfuzz.py that compare two backends: `_differential_compare`,
-- `_trapsite_outcome` and the comparison of `oracle_trapsite`. What the compilers, the linker and the
-- programs give is an argument.
pub mod Outcome
pub mod Agreement
use Prim.Native.Char.{Char, code}
use modern_c.Prelude.{
  ℕ, zero, suc, ◌+◌, String, Bool, true, false, not, ◌&&◌, List, [], ◌∷◌, Option, none, some, ◌==◌,
  ◌||◌, leb, lstrip, rstrip, strip, same_text, decimal, cat, if◌then◌else◌,
}
use modern_c.Fuzz.Numbers.{ℤ, pos, negsuc}

-- The white space of `bytes`, and `strip` of it.
abbrev pub is_blank_byte : ℕ → Bool
is_blank_byte n = (leb 9 n && leb n 13) || n == 32

unfoldable pub lstrip_bytes : String → String
lstrip_bytes String.[] = ""
lstrip_bytes (String.◌∷◌ c s) = elim (is_blank_byte (code c)) [
  | true ↦ lstrip_bytes s
  | false ↦ String.◌∷◌ c s
]

abbrev keep_byte : Char → String → String
keep_byte c String.[] = if is_blank_byte (code c) then "" else String.◌∷◌ c ""
keep_byte c (String.◌∷◌ d s) = String.◌∷◌ c (String.◌∷◌ d s)

unfoldable pub rstrip_bytes : String → String
rstrip_bytes String.[] = ""
rstrip_bytes (String.◌∷◌ c s) = keep_byte c (rstrip_bytes s)

abbrev pub strip_bytes : String → String
strip_bytes s = lstrip_bytes (rstrip_bytes s)

-- A program that ran: its return code and what it printed.
pub record Ran : Type 0 where
  pub returncode : ℤ
  pub stdout : String

-- What the tools give for one source, in the order in which they are started: the error of the C
-- backend, whether `emit-llvm` and the LLVM build succeed, whether the two programs link, and their
-- runs.
pub record Built : Type 0 where
  pub c_error : Option String
  pub llvm_accepts : Bool
  pub llvm_built : Bool
  pub c_linked : Bool
  pub llvm_linked : Bool
  pub c_ran : Ran
  pub llvm_ran : Ran

pub data Divergence : Type 0 where
  c_failed : String → Divergence
  llvm_failed : Divergence
  c_link_failed : Divergence
  llvm_link_failed : Divergence
  one_trapped : ℤ → ℤ → Divergence
  output_differs : String → String → Divergence
  not_instrumented : String → Divergence
  trapsite_differs : String → String → Divergence

abbrev pub succeeds : ℤ → Bool
succeeds (pos zero) = true
succeeds _ = false

abbrev pub same_bool : Bool → Bool → Bool
same_bool true b = b
same_bool false b = not b

unfoldable pub compare_runs : Ran → Ran → Option Divergence
unfolding lstrip_bytes rstrip_bytes
compare_runs c l =
    if not (same_bool (succeeds c.returncode) (succeeds l.returncode))
    then some (one_trapped c.returncode l.returncode)
    else if succeeds c.returncode && not (same_text c.stdout l.stdout)
    then some (output_differs (strip_bytes c.stdout) (strip_bytes l.stdout))
    else none

-- What both oracles do before the runs are compared: a program that both backends reject is
-- consistent.
unfoldable pub compare_built : (Ran → Ran → Option Divergence) → Built → Option Divergence
compare_built runs b = elim b.c_error [
  | some err ↦ if b.llvm_accepts then some (c_failed err) else none
  | none ↦
      if not b.llvm_built
      then some llvm_failed
      else if not b.c_linked
      then some c_link_failed
      else if not b.llvm_linked
      then some llvm_link_failed
      else runs b.c_ran b.llvm_ran
]

-- `_differential_compare(env, src_path, work)`.
unfoldable pub differential_compare : Built → Option Divergence
unfolding compare_built compare_runs
differential_compare b = compare_built compare_runs b

abbrev pub trap_kinds : List String
trap_kinds =
    "Assert" ∷ "Bounds" ∷ "DivideByZero" ∷ "IntegerOverflow" ∷ "InvalidRepresentation"
    ∷ "InvalidShift" ∷ "NullUnwrap" ∷ "Unreachable" ∷ []

abbrev pub trapsite_exit_base : ℕ
trapsite_exit_base = 40

-- `TRAPSITE_CODE_TO_KIND.get(code)`: the kinds are numbered from the base on, from one.
unfoldable pub kind_from : ℕ → List String → ℕ → Option String
kind_from next [] code = none
kind_from next (k ∷ ks) code =
    let rest = kind_from (next + 1) ks code in if code == next then some k else rest

unfoldable pub code_to_kind : ℤ → Option String
unfolding kind_from
code_to_kind (pos n) = kind_from (trapsite_exit_base + 1) trap_kinds n
code_to_kind (negsuc n) = none

unfoldable pub int_text : ℤ → String
unfolding decimal cat
int_text (pos n) = decimal n
int_text (negsuc n) = cat ("-" ∷ decimal (n + 1) ∷ [])

abbrev pub outcome_of : ℤ → Option String → String
outcome_of code none = cat ("status:" ∷ int_text code ∷ [])
outcome_of code (some kind) = cat ("trap:" ∷ kind ∷ [])

module _ (decode : String → String) where
  -- `_trapsite_outcome(proc)`; `decode` is that of UTF-8 with replacement.
  unfoldable pub trapsite_outcome : Ran → String
  unfolding code_to_kind int_text lstrip rstrip cat
  trapsite_outcome p =
      if succeeds p.returncode
      then cat ("ok:" ∷ strip (decode p.stdout) ∷ [])
      else outcome_of p.returncode (code_to_kind p.returncode)

  unfoldable pub compare_outcomes : Ran → Ran → Option Divergence
  unfolding trapsite_outcome
  compare_outcomes c l =
      if same_text (trapsite_outcome c) (trapsite_outcome l)
      then none
      else some (trapsite_differs (trapsite_outcome c) (trapsite_outcome l))

  -- `oracle_trapsite`: `emitted` is the error of `emit-c`, `instrumented` that of
  -- `_instrument_c_trap_helpers`, and `b.c_error` that of the C compiler.
  unfoldable pub oracle_trapsite :
      (emitted instrumented : Option String) → Built → Option Divergence
  unfolding compare_built compare_outcomes
  oracle_trapsite (some err) instrumented b = if b.llvm_accepts then some (c_failed err) else none
  oracle_trapsite none (some err) b = some (not_instrumented err)
  oracle_trapsite none none b = compare_built compare_outcomes b
