-- ===== src/Gates/Rules/Sweeps.antt =====
-- `RULES` of tools/dev-gates.py: sweeps, fixtures and documentation.
use modern_c.Prelude.{[], ◌∷◌, List}
use modern_c.Gates.Rule.{Rule}

unfoldable pub sweep_rules : List Rule
sweep_rules =
    (record {
      patterns = "tools/toolchain/asm-targets-test.sh" ∷ "tests/toolchain/asm_targets.mc" ∷ [];
      gates = "asm-targets-test" ∷ [];
      reason = "asm target harness changes need the asm target gate";
      checks = [];
      excludes = [];
    })
    ∷ (record {
      patterns =
          ".github/workflows/ci.yml" ∷ "Dockerfile" ∷ "docker-compose.yml" ∷ "tools/preflight.sh"
          ∷ [];
      gates = "preflight" ∷ "ci-pass-gates-test" ∷ [];
      reason = "toolchain and CI changes need preflight plus CI gate anti-vacuity checks";
      checks = [];
      excludes = [];
    })
    ∷ (record {
      patterns = ".github/workflows/nightly-fuzz.yml" ∷ [];
      gates = [];
      reason = "nightly workflow and benchmark metadata changes do not affect compiler-core gates";
      checks = "git diff --check" ∷ [];
      excludes = [];
    })
    ∷ (record {
      patterns = "tools/toolchain/checks-elision-parity.sh" ∷ [];
      gates = "checks-elision-parity" ∷ [];
      reason =
          "checks=all/checks=elide-proven parity harness changes need the safe checks elision parity gate";
      checks = [];
      excludes = [];
    })
    ∷ (record {
      patterns = "CHANGELOG.md" ∷ [];
      gates = [];
      reason = "changelog prose changes do not affect compiler-core gates";
      checks = "git diff --check" ∷ [];
      excludes = [];
    })
    ∷ (record {
      patterns = "build.zig.zon" ∷ ".zigversion" ∷ [];
      gates = "preflight" ∷ [];
      reason = "toolchain version metadata changes need preflight";
      checks = [];
      excludes = [];
    })
    ∷ (record {
      patterns =
          "tools/toolchain/diagnostics-reference.py"
          ∷ "tools/toolchain/diagnostic-code-inventory.py" ∷ "docs/diagnostics.md"
          ∷ "docs/diagnostic-code-inventory.md" ∷ [];
      gates =
          "diagnostics-reference-test" ∷ "diagnostic-code-inventory-test" ∷ "bad-diagnostics-test"
          ∷ "mcc-cli-test" ∷ [];
      reason =
          "diagnostic inventory changes need generated reference, ownership checks, and the installed explain CLI smoke";
      checks = [];
      excludes = [];
    })
    ∷ (record {
      patterns = "tools/toolchain/spec-*-sweep.py" ∷ "tools/toolchain/llvm-opt-sweep.py" ∷ [];
      gates = "test-lint" ∷ [];
      reason =
          "spec sweep allowlist changes need fixture-contract lint so codegen fixtures cannot be hidden";
      checks = [];
      excludes = [];
    })
    ∷ (record {
      patterns = "tools/toolchain/spec-emit-sweep.py" ∷ [];
      gates = "sweep" ∷ [];
      reason = "spec C-emission sweep script changes need the spec C emit sweep";
      checks = [];
      excludes = [];
    })
    ∷ (record {
      patterns = "tools/toolchain/spec-llvm-sweep.py" ∷ [];
      gates = "llvm-sweep" ∷ [];
      reason = "spec LLVM IR sweep script changes need the spec LLVM sweep";
      checks = [];
      excludes = [];
    })
    ∷ (record {
      patterns = "tools/toolchain/spec-llvm-obj-sweep.py" ∷ [];
      gates = "llvm-spec-obj-sweep" ∷ [];
      reason = "spec LLVM object sweep script changes need the spec LLVM object sweep";
      checks = [];
      excludes = [];
    })
    ∷ (record {
      patterns = "tools/toolchain/llvm-opt-sweep.py" ∷ [];
      gates = "llvm-opt-sweep" ∷ [];
      reason = "LLVM optimizer sweep script changes need the optimizer/verifier sweep";
      checks = [];
      excludes = [];
    })
    ∷ (record {
      patterns = "tools/toolchain/spec_sweep_lib.py" ∷ [];
      gates = "test-lint" ∷ "sweep" ∷ "llvm-sweep" ∷ "llvm-spec-obj-sweep" ∷ "llvm-opt-sweep" ∷ [];
      reason =
          "shared spec sweep parsing changes need every spec-backed emit/object/optimizer sweep";
      checks = [];
      excludes = [];
    })
    ∷ (record {
      patterns = "tools/toolchain/llvm-c-emit-sweep.py" ∷ [];
      gates = "llvm-c-sweep" ∷ [];
      reason = "LLVM C-emission sweep script changes need the C-emission LLVM IR sweep";
      checks = [];
      excludes = [];
    })
    ∷ (record {
      patterns = "tools/toolchain/llvm-c-obj-sweep.py" ∷ [];
      gates = "llvm-c-obj-sweep" ∷ [];
      reason = "LLVM C-object sweep script changes need the C-emission object sweep";
      checks = [];
      excludes = [];
    })
    ∷ (record {
      patterns = "tools/arch/qemu-mmio-test.sh" ∷ [];
      gates = "qemu-test" ∷ "llvm-qemu-test" ∷ [];
      reason = "typed-MMIO QEMU wrapper changes need its C and LLVM QEMU gates";
      checks = [];
      excludes = [];
    })
    ∷ (record {
      patterns = "tools/qemu/kernel-boot-lib.sh" ∷ [];
      gates = "preflight" ∷ [];
      reason = "shared QEMU boot library changes need toolchain preflight";
      checks = [];
      excludes = [];
    })
    ∷ []
