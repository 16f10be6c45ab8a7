-- ===== src/Gates/Rules/Compiler.antt =====
-- `RULES` of tools/dev-gates.py: the compiler and the harnesses of the front end.
use modern_c.Prelude.{[], ◌∷◌, List}
use modern_c.Gates.Rule.{Rule}

unfoldable pub compiler_rules : List Rule
compiler_rules =
    (record {
      patterns = "src/*.zig" ∷ [];
      gates = "test" ∷ "diagnostics-reference-test" ∷ "diagnostic-code-inventory-test" ∷ [];
      reason =
          "compiler implementation changes need unit/spec coverage plus generated diagnostic reference and code ownership checks";
      checks = [];
      excludes = "src/*_tests.zig" ∷ "src/diagnostic_explain.zig" ∷ [];
    })
    ∷ (record {
      patterns = "src/diagnostic_explain.zig" ∷ [];
      gates = "mcc-cli-test" ∷ "diagnostics-reference-test" ∷ "diagnostic-code-inventory-test" ∷ [];
      reason =
          "diagnostic explain changes need installed CLI behavior plus generated diagnostic reference and code ownership checks";
      checks = [];
      excludes = [];
    })
    ∷ (record {
      patterns =
          "src/parser.zig" ∷ "src/lexer.zig" ∷ "src/loader.zig" ∷ "src/diagnostics.zig"
          ∷ "src/main.zig" ∷ [];
      gates =
          "test" ∷ "diagnostics-test" ∷ "bad-diagnostics-test" ∷ "diagnostics-reference-test"
          ∷ "diagnostic-code-inventory-test" ∷ [];
      reason =
          "front-end and diagnostics changes need unit/spec coverage, transcript locks, generated diagnostic reference, and code ownership";
      checks = [];
      excludes = [];
    })
    ∷ (record {
      patterns =
          "src/sema*.zig" ∷ "src/generic_precheck.zig" ∷ "src/monomorphize.zig" ∷ "src/sema_*.zig"
          ∷ [];
      gates = "test" ∷ "bad-diagnostics-test" ∷ "c-test" ∷ "diff-backend" ∷ [];
      reason = "semantic changes need spec diagnostics, C emission sweep, and backend parity";
      checks = [];
      excludes = "src/*_tests.zig" ∷ [];
    })
    ∷ (record {
      patterns =
          "src/mir*.zig" ∷ "src/ir_inspection.zig" ∷ "src/hir_inspection.zig" ∷ "src/eval.zig"
          ∷ "src/numeric.zig" ∷ [];
      gates = "test" ∷ "c-test" ∷ "llvm-test" ∷ "diff-backend" ∷ "fuzz-reference" ∷ [];
      reason =
          "middle-end and evaluator changes can affect the C backend and the LLVM differential oracle";
      checks = [];
      excludes = "src/*_tests.zig" ∷ [];
    })
    ∷ (record {
      patterns = "src/lower_c*.zig" ∷ [];
      gates = "test" ∷ "c-test" ∷ "diff-backend" ∷ "lowering-coverage" ∷ [];
      reason = "C backend changes need C sweep, parity, and lowering coverage ratchet";
      checks = [];
      excludes = "src/*_tests.zig" ∷ [];
    })
    ∷ (record {
      patterns = "src/lower_llvm*.zig" ∷ [];
      gates = "test" ∷ "llvm-test" ∷ "llvm-obj-test" ∷ "diff-backend" ∷ "lowering-coverage" ∷ [];
      reason =
          "LLVM oracle changes need textual/object LLVM gates, C-vs-LLVM parity, and the lowering coverage ratchet";
      checks = [];
      excludes = "src/*_tests.zig" ∷ [];
    })
    ∷ (record {
      patterns = "src/async_lower.zig" ∷ [];
      gates = "test" ∷ "c-test" ∷ "diff-backend" ∷ "fuzz-async" ∷ "fuzz-corpus" ∷ [];
      reason =
          "async lowering rewrites source before sema; expected-output fixtures, backend parity, generated async fuzzing, and corpus replay cover its risk";
      checks = [];
      excludes = [];
    })
    ∷ (record {
      patterns = "src/*_tests.zig" ∷ [];
      gates = "test" ∷ [];
      reason = "unit test source changes are covered by the compiler unit/spec test step";
      checks = [];
      excludes = [];
    })
    ∷ (record {
      patterns = "tools/ci/pass-gates.py" ∷ [];
      gates = "ci-pass-gates-test" ∷ [];
      reason = "CI PASS assertion helper changes need the focused CI anti-vacuity contract gate";
      checks = [];
      excludes = [];
    })
    ∷ (record {
      patterns =
          "build.zig" ∷ "build/*.zig" ∷ "tools/m0-parallel.sh" ∷ "tools/fast-parallel.sh" ∷ [];
      gates = "fast" ∷ [];
      reason =
          "build graph changes need the broad host-only confidence gate, which includes unit/spec and tier anti-drift checks";
      checks = [];
      excludes = [];
    })
    ∷ (record {
      patterns = "tools/dev-gates.py" ∷ "tools/toolchain/dev-gates-test.py" ∷ [];
      gates = "dev-gates-test" ∷ [];
      reason = "development gate selector changes need focused routing contract coverage";
      checks = [];
      excludes = [];
    })
    ∷ (record {
      patterns = "tools/test/contract-lint.py" ∷ [];
      gates = "test-lint" ∷ [];
      reason = "fixture contract linter changes need the fixture-contract lint gate";
      checks = [];
      excludes = [];
    })
    ∷ (record {
      patterns = "tools/toolchain/bad-diagnostics-test.py" ∷ [];
      gates = "bad-diagnostics-test" ∷ [];
      reason = "bad diagnostic golden-check changes need the bad diagnostics gate";
      checks = [];
      excludes = [];
    })
    ∷ (record {
      patterns = "tools/toolchain/diff-backend.sh" ∷ [];
      gates = "diff-backend" ∷ [];
      reason = "backend parity harness changes need the differential backend gate";
      checks = [];
      excludes = [];
    })
    ∷ (record {
      patterns = "tools/toolchain/diagnostics-test.sh" ∷ [];
      gates = "diagnostics-test" ∷ [];
      reason = "diagnostics transcript harness changes need the diagnostics gate";
      checks = [];
      excludes = [];
    })
    ∷ (record {
      patterns = "tools/toolchain/mcc-cli-test.sh" ∷ [];
      gates = "mcc-cli-test" ∷ [];
      reason = "CLI behavior harness changes need the CLI gate";
      checks = [];
      excludes = [];
    })
    ∷ []
