-- ===== src/Fuzz/Cases.antt =====
-- Runs of the oracles and of the triage of tools/fuzz/mcfuzz.py on small inputs, and the theorems at them.
use Prim.Native.Char.{code}
use modern_c.Prelude.{
  ℕ, ◌+◌, ◌≡◌, refl, ◌↔◌, ◌⊎◌, inr, String, true, false, ◌&&◌, List, [], ◌∷◌, Option, none, some,
  arith, leb, ◌==◌, All, mentions, same_text, begins, cat, if◌then◌else◌,
}
use modern_c.Ref.Random.{Rng, randrange}
use modern_c.Ref.Random.Rules.{Ensures}
use modern_c.Fuzz.Keys.{is_word}
use modern_c.Fuzz.Rows.{chr}
use modern_c.Fuzz.Numbers.{ℤ, pos}
use modern_c.Fuzz.Result.{◌>>=◌}
use modern_c.Fuzz.Artifacts.{Process, completed}
use modern_c.Fuzz.Robust.{mutate, check_no_crash, leaked_on, oracle_robust, repeat_token}
use modern_c.Fuzz.Robust.Total.{Tried, oracle_robust-Tried}
use modern_c.Fuzz.Format.{
  without_position, roundtrip_c_body, outcome, stripped_lex_stream, agree, oracle_roundtrip,
}
use modern_c.Fuzz.Format.Stable.{IsStable, oracle_roundtrip_iff}
use modern_c.Fuzz.Variants.{oracle_sanitize, reported}
use modern_c.Fuzz.Stages.{check_injected, accepted, oracle_determinism, not_deterministic}
use modern_c.Fuzz.Signature.{signature_fallback}
use modern_c.Fuzz.Patterns.{
  search_word, search_any, error_code, ubsan_kind, family_kind, dashed, slug, crash_bucket,
  hang_bucket, inconsistency, roundtrip_kind,
}
use modern_c.Fuzz.Buckets.{finding_signature, first_bucket, if_begins, if_mentions}
use modern_c.Fuzz.Triage.{run_one, findings, exit_code}
use modern_c.Fuzz.Commands.{RunArgs, run_reproduce_command}
use modern_c.Fuzz.Repro.{Triaged, auto_shrink_failures}
use modern_c.Fuzz.Triage.Loop.{pooled_run, alone_run, CleanSeed, exit_code-findings}
use modern_c.Fuzz.Repro.Once.{Buckets, auto_shrink_failures-Buckets}

-- `str.lower` of an ASCII text.
lower : String → String
unfolding chr
lower String.[] = ""
lower (String.◌∷◌ c s) =
    String.◌∷◌ (if leb 65 (code c) && leb (code c) 90 then chr (code c + 32) else c) (lower s)

abbrev signature : String → String
signature finding = finding_signature is_word lower "determinism" finding

signature_test :
    (signature "FAIL seed=7: UBSan: p.c:3: runtime error: signed integer overflow: 1 + 2"
      ≡ "ubsan:signed-integer-overflow")
    × (signature "BACKEND DIVERGENCE (one trapped, one did not): C=(rc=0) LLVM=(rc=4)"
        ≡ "divergence:backend:one-trapped-one-did-not")
    × (signature "mcc check CRASHED (signal 11) on mutated input" ≡ "crash:mcc-check:signal-11")
    × (signature "p.mc:3: error: E_TYPE_MISMATCH here" ≡ "compiler-error:E_TYPE_MISMATCH")
    × (signature "SOUNDNESS: mcc check ACCEPTED an ill-typed program (x)"
        ≡ "soundness:soundness-mcc-check-accepted-an-ill-typed-program")
    × (signature "wrote /tmp/x1/p.c, 42 lines, seed=3" ≡ "fallback:wrote-<tmp>-#-lines-seed-#")
unfolding finding_signature lower signature_fallback first_bucket search_word error_code begins
    search_any ubsan_kind family_kind cat dashed slug if_begins crash_bucket hang_bucket
    inconsistency roundtrip_kind if_mentions mentions
signature_test = (refl, refl, refl, refl, refl, refl)

abbrev check_passes : String → String ⊎ ℤ
check_passes source = inr (pos 0)

abbrev finds : ℕ → String → String ⊎ Option String
finds seed source = inr (some "NON-DETERMINISTIC emit-c")

-- The note that a run appends is taken off again, but not in the asynchronous mode.
reproduce_test :
    (run_one false check_passes finds 12 "p"
      ≡ some "FAIL seed=12: NON-DETERMINISTIC emit-c (reproduce: tools/fuzz/mcfuzz.py gen 12)")
    × (signature
          "FAIL seed=12: NON-DETERMINISTIC emit-c (reproduce: tools/fuzz/mcfuzz.py gen 12) [confirmed on serial re-verify]"
        ≡ signature "NON-DETERMINISTIC emit-c")
    × (signature
          "FAIL seed=12: NON-DETERMINISTIC emit-c (reproduce: tools/fuzz/mcfuzz.py gen 12 --async)"
        ≡ "fallback:non-deterministic-emit-c-reproduce-tools-fuzz-mcfuzz.py-gen-#---async")
unfolding run_one finding_signature lower signature_fallback first_bucket search_word error_code
    begins search_any family_kind if_begins crash_bucket hang_bucket inconsistency roundtrip_kind
    if_mentions mentions cat
reproduce_test = (refl, refl, refl)

stages_test :
    (check_no_crash "x" (completed (pos 1) "" "a\nthread panic: b\n")
      ≡ some (leaked_on "x" "thread panic: b"))
    × (without_position "a:b:3:14:  fn" ≡ "fn")
    × (repeat_token "(" 3 ≡ "( ( (")
    × (check_injected
          (λ src. completed (pos (if mentions "{\nBAD\n}" src then 0 else 1)) "" "")
          "export fn harness() -> u64 {\n}"
          ("BAD", "d")
        ≡ some (accepted "d"))
    × (oracle_determinism (completed (pos 0) "a" "" ∷ completed (pos 0) "b" "" ∷ []) []
        ≡ some (not_deterministic "emit-c"))
    × (oracle_sanitize none true
          (record { returncode = pos 0; stdout = ""; stderr = "x\np.c: runtime error: y\n" })
        ≡ some (reported "p.c: runtime error: y"))
unfolding check_no_crash without_position repeat_token check_injected mentions oracle_determinism
    oracle_sanitize
stages_test = (refl, refl, refl, refl, refl, refl)

abbrev survives : List ℕ → Process
survives bytes = completed (pos 1) "" "error: E_PARSE"

abbrev draws : Rng
draws = record { tape = λ n. n; at = 0 }

mutate_test :
    mutate (102 ∷ 110 ∷ 255 ∷ []) draws ≡ some (102 ∷ 110 ∷ [], record { tape = λ n. n; at = 3 })
unfolding mutate randrange
mutate_test = refl

oracle_robust-Tried_example :
    Ensures
      (Tried survives 5 (102 ∷ 110 ∷ 255 ∷ []) draws)
      (oracle_robust survives 5 (102 ∷ 110 ∷ 255 ∷ []) draws)
oracle_robust-Tried_example =
    oracle_robust-Tried survives 5 (102 ∷ 110 ∷ 255 ∷ [])
      (omega arith, (omega arith, (omega arith, tt))) draws

-- A formatter that puts every program in one form.
abbrev stages : String → String → Process
stages stage src =
    completed (pos 0) (if same_text stage "fmt" then "fn f() {}\n" else "#line 1\nx") ""

roundtrip_test : oracle_roundtrip (λ s. s) stages "fn  f() {}" ≡ inr tt
unfolding oracle_roundtrip ◌>>=◌ outcome agree stripped_lex_stream roundtrip_c_body
roundtrip_test = refl

oracle_roundtrip_iff_example :
    (oracle_roundtrip (λ s. s) stages "fn  f() {}" ≡ inr tt) ↔ IsStable (λ s. s) stages "fn  f() {}"
oracle_roundtrip_iff_example = oracle_roundtrip_iff (λ s. s) stages "fn  f() {}"

abbrev args : RunArgs
args = record {
  oracle = "determinism";
  mcc = "zig out/mcc";
  trapping = false;
  async_mode = true;
  triage_dir = "out";
}

command_test :
    run_reproduce_command args 9
    ≡ "python3 tools/fuzz/mcfuzz.py run --oracle determinism --count 1 --start 9 --jobs 1 --mcc 'zig out/mcc' --async"
unfolding run_reproduce_command
command_test = refl

abbrev pooled : ℕ → Option String
pooled seed =
    if seed == 3
    then some "FAIL seed=3: mcc check HANGS (>15s) on mutated input"
    else if seed == 4
    then some "FAIL seed=4: mcc check HANGS (>15s) on mutated input"
    else none

abbrev alone : ℕ → Option String
alone seed = if seed == 4 then some "FAIL seed=4: mcc check HANGS (>15s) on mutated input" else none

findings_test :
    (findings pooled alone (3 ∷ 4 ∷ 5 ∷ []) ≡ (
      ("FAIL seed=4: mcc check HANGS (>15s) on mutated input [confirmed on serial re-verify]", true)
      ∷ []))
    × (exit_code (findings pooled alone (3 ∷ 5 ∷ [])) ≡ 0)
unfolding findings exit_code run_one
findings_test = (refl, refl)

abbrev one_program : ℕ → String
one_program seed = "fn main() {}"

abbrev quiet : ℕ → String → String ⊎ Option String
quiet seed source = inr none

abbrev slow_at_3 : ℕ → String → String ⊎ Option String
slow_at_3 seed source = if seed == 3 then inr (some "mcc check HANGS") else inr none

slow_test :
    (exit_code (
        findings
          (pooled_run false one_program check_passes check_passes slow_at_3 quiet)
          (alone_run false one_program check_passes check_passes slow_at_3 quiet)
          (3 ∷ 5 ∷ []))
      ≡ 0)
    × (exit_code (
          findings
            (pooled_run false one_program check_passes check_passes slow_at_3 slow_at_3)
            (alone_run false one_program check_passes check_passes slow_at_3 slow_at_3)
            (3 ∷ 5 ∷ []))
        ≡ 1)
unfolding findings exit_code run_one
slow_test = (refl, refl)

exit_code-findings_example :
    (exit_code (
        findings
          (pooled_run false one_program check_passes check_passes slow_at_3 quiet)
          (alone_run false one_program check_passes check_passes slow_at_3 quiet)
          (3 ∷ 5 ∷ []))
      ≡ 0)
    ↔ All (CleanSeed false one_program check_passes check_passes slow_at_3 quiet) (3 ∷ 5 ∷ [])
exit_code-findings_example =
    exit_code-findings false one_program check_passes check_passes slow_at_3 quiet (3 ∷ 5 ∷ [])

abbrev triaged : ℕ → String → Triaged
triaged n sig = record {
  seed = some n;
  signature = sig;
  message = "";
  reproduce_command = none;
  shrink_with = none;
  confirmed = false;
}

abbrev records : List Triaged
records = triaged 1 "bad" ∷ triaged 2 "bad" ∷ triaged 3 "worse" ∷ []

abbrev on_source : ℕ → String → Option String
on_source seed source = if mentions "bad" source then some "bad" else none

auto_shrink_failures-Buckets_example :
    Buckets args
      (λ seed. "good\nbad\nfine")
      on_source
      (λ finding. finding)
      records
      (auto_shrink_failures args (λ seed. "good\nbad\nfine") on_source (λ finding. finding) records)
auto_shrink_failures-Buckets_example =
    auto_shrink_failures-Buckets args (λ seed. "good\nbad\nfine") on_source (λ finding. finding)
      records
