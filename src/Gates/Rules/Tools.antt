-- ===== src/Gates/Rules/Tools.antt =====
-- `RULES` of tools/dev-gates.py: manifests, documents and tools.
use modern_c.Prelude.{[], ◌∷◌, List}
use modern_c.Gates.Rule.{Rule}

unfoldable pub tool_rules : List Rule
tool_rules =
    (record {
      patterns = "tools/toolchain/install-layout-test.sh" ∷ [];
      gates = "install-layout-test" ∷ [];
      reason = "install-layout harness changes need the install layout gate";
      checks = [];
      excludes = [];
    })
    ∷ (record {
      patterns = "tools/toolchain/path-remap-test.sh" ∷ [];
      gates = "path-remap-test" ∷ [];
      reason = "path remap harness changes need the reproducible path gate";
      checks = [];
      excludes = [];
    })
    ∷ (record {
      patterns = "tools/toolchain/fmt-test.sh" ∷ [];
      gates = "fmt-test" ∷ [];
      reason = "formatter harness changes need the formatter gate";
      checks = [];
      excludes = [];
    })
    ∷ (record {
      patterns = "tools/toolchain/mcc-symbols-test.sh" ∷ [];
      gates = "mcc-symbols-test" ∷ [];
      reason = "symbol index harness changes need the symbols gate";
      checks = [];
      excludes = [];
    })
    ∷ (record {
      patterns = "tools/toolchain/mcc-inspection-modules-test.sh" ∷ [];
      gates = "mcc-inspection-modules-test" ∷ [];
      reason = "inspection module-boundary harness changes need the inspection module gate";
      checks = [];
      excludes = [];
    })
    ∷ (record {
      patterns = "tools/toolchain/mcc-list-tests-modules-test.sh" ∷ [];
      gates = "mcc-list-tests-modules-test" ∷ [];
      reason = "list-tests module-boundary harness changes need the list-tests module gate";
      checks = [];
      excludes = [];
    })
    ∷ (record {
      patterns = "tools/toolchain/std-api-docs.py" ∷ [];
      gates = "std-api-docs-test" ∷ [];
      reason = "stdlib API docs checker changes need the std API docs gate";
      checks = [];
      excludes = [];
    })
    ∷ (record {
      patterns = "docs/gate-manifest.json" ∷ "tools/toolchain/gate-manifest-test.py" ∷ [];
      gates = "gate-manifest-test" ∷ [];
      reason = "gate manifest changes need the gate manifest contract";
      checks = [];
      excludes = [];
    })
    ∷ (record {
      patterns =
          "tools/toolchain/lowering-coverage.sh" ∷ "tools/toolchain/lowering-coverage-baseline.tsv"
          ∷ "docs/lowering-coverage.md" ∷ [];
      gates = "lowering-coverage" ∷ [];
      reason = "lowering coverage ratchet changes need the lowering coverage gate";
      checks = [];
      excludes = [];
    })
    ∷ (record {
      patterns =
          "docs/backend-expected-failures.json"
          ∷ "tools/toolchain/backend-expected-failures-test.py"
          ∷ "tools/toolchain/backend_gap_lib.py" ∷ "tools/toolchain/check-generated-c.sh"
          ∷ "tools/toolchain/spec-emit-sweep.py" ∷ [];
      gates = "backend-expected-failures-test" ∷ "c-test" ∷ "sweep" ∷ [];
      reason =
          "known-backend-gap manifest changes need the manifest contract and both harnesses that consult it";
      checks = [];
      excludes = [];
    })
    ∷ (record {
      patterns =
          "src/architecture_boundary_tests.zig" ∷ "src/backend.zig" ∷ "src/backend_cleanup.zig"
          ∷ "src/lower_c*.zig" ∷ "src/lower_llvm*.zig" ∷ "src/lower_cov.zig"
          ∷ "src/mir_body_plan*.zig" ∷ "src/mir_executable_*.zig" ∷ [];
      gates = "architecture-boundary-test" ∷ [];
      reason = "backend/MIR-body module changes need the structural syntax-front-end import check";
      checks = [];
      excludes = [];
    })
    ∷ (record {
      patterns =
          "tools/toolchain/compiler-coverage.sh" ∷ "tools/toolchain/compiler-coverage-baseline.tsv"
          ∷ [];
      gates = "compiler-coverage" ∷ [];
      reason = "compiler coverage ratchet changes need the compiler coverage gate";
      checks = [];
      excludes = [];
    })
    ∷ (record {
      patterns = "tools/toolchain/lowering-cov-instrument.py" ∷ [];
      gates = "lowering-coverage" ∷ "compiler-coverage" ∷ [];
      reason = "shared coverage instrumentation changes need both coverage ratchets";
      checks = [];
      excludes = [];
    })
    ∷ (record {
      patterns = "tools/toolchain/mc-audit.sh" ∷ [];
      gates = "unsafe-audit" ∷ "capability-mint-audit" ∷ [];
      reason = "shared MC audit changes need every retained security audit mode";
      checks =
          "bash tools/toolchain/mc-audit.sh --mode capability-mint --self-test 2>&1 | rg '^CAP-MINT '"
          ∷ [];
      excludes = [];
    })
    ∷ (record {
      patterns = "docs/unsafe-boundary.md" ∷ [];
      gates = "unsafe-audit" ∷ [];
      reason = "unsafe-boundary docs need the unsafe audit gate";
      checks = [];
      excludes = [];
    })
    ∷ (record {
      patterns = "docs/std-api.md" ∷ [];
      gates = "std-api-docs-test" ∷ [];
      reason = "generated stdlib API docs need the std API docs gate";
      checks = [];
      excludes = [];
    })
    ∷ (record {
      patterns = "tools/toolchain/abi-test.sh" ∷ "tests/toolchain/abi_layout.mc" ∷ [];
      gates = "abi-test" ∷ [];
      reason = "ABI layout harness changes need the ABI layout gate";
      checks = [];
      excludes = [];
    })
    ∷ []
