-- ===== src/Gates/Rules/Backends.antt =====
-- `RULES` of tools/dev-gates.py: backend harnesses, fuzzing and freestanding code.
use modern_c.Prelude.{[], ◌∷◌, List}
use modern_c.Gates.Rule.{Rule}

unfoldable pub backend_rules : List Rule
backend_rules =
    (record {
      patterns = "docs/**/*.md" ∷ "docs/*.md" ∷ "*.md" ∷ [];
      gates = [];
      reason = "generic documentation changes need whitespace/patch sanity, not compiler execution";
      checks = "git diff --check" ∷ [];
      excludes = [];
    })
    ∷ (record {
      patterns = "tests/spec/*.mc" ∷ [];
      gates = [];
      reason = "spec fixtures are routed from their SPEC phase metadata";
      checks = [];
      excludes = [];
    })
    ∷ (record {
      patterns = "tests/c_emit/bad/*.mc" ∷ [];
      gates = "bad-diagnostics-test" ∷ "c-test" ∷ [];
      reason = "bad C-emission fixtures need golden diagnostics and reject-sweep coverage";
      checks = [];
      excludes = [];
    })
    ∷ (record {
      patterns =
          "tests/c_emit/*.mc" ∷ "tools/lib/host-tests.tsv" ∷ "tools/lib/host-harness.sh" ∷ [];
      gates = "c-test" ∷ "diff-backend" ∷ "llvm-c-sweep" ∷ [];
      reason = "host C fixtures are cross-backend parity surface";
      checks = [];
      excludes = [];
    })
    ∷ (record {
      patterns = "tests/llvm/*.mc" ∷ [];
      gates = "llvm-test" ∷ "llvm-obj-test" ∷ [];
      reason = "LLVM backend fixtures need the textual and object LLVM fixture gates";
      checks = [];
      excludes = [];
    })
    ∷ (record {
      patterns = "tools/toolchain/llvm-test.sh" ∷ [];
      gates = "llvm-test" ∷ [];
      reason = "LLVM textual harness changes need the textual LLVM fixture gate";
      checks = [];
      excludes = [];
    })
    ∷ (record {
      patterns = "tools/toolchain/llvm-obj-test.sh" ∷ [];
      gates = "llvm-obj-test" ∷ [];
      reason = "LLVM object harness changes need the LLVM object fixture gate";
      checks = [];
      excludes = [];
    })
    ∷ (record {
      patterns = "tools/toolchain/llvm-debug-test.sh" ∷ [];
      gates = "llvm-debug-test" ∷ [];
      reason = "LLVM debug harness changes need the DWARF/source-line mapping gate";
      checks = [];
      excludes = [];
    })
    ∷ (record {
      patterns = "tools/toolchain/llvm-std-test.sh" ∷ [];
      gates = "llvm-std-test" ∷ [];
      reason = "LLVM std harness changes need the LLVM stdlib gate";
      checks = [];
      excludes = [];
    })
    ∷ (record {
      patterns = "tools/toolchain/llvm-toolchain-test.sh" ∷ [];
      gates = "llvm-toolchain-test" ∷ [];
      reason = "LLVM toolchain harness changes need the LLVM toolchain gate";
      checks = [];
      excludes = [];
    })
    ∷ (record {
      patterns = "tools/toolchain/llvm-runtime-test.sh" ∷ [];
      gates = "llvm-runtime-test" ∷ [];
      reason = "LLVM runtime harness changes need the LLVM runtime gate";
      checks = [];
      excludes = [];
    })
    ∷ (record {
      patterns = "tools/toolchain/llvm-demo-test.sh" ∷ [];
      gates = "llvm-demo-test" ∷ [];
      reason = "LLVM demo harness changes need the LLVM demo gate";
      checks = [];
      excludes = [];
    })
    ∷ (record {
      patterns = "tools/toolchain/llvm-*.sh" ∷ [];
      gates = "llvm-test" ∷ "llvm-obj-test" ∷ "llvm-sweep" ∷ "llvm-c-obj-sweep" ∷ [];
      reason =
          "unclassified LLVM harness changes keep the conservative textual, object, and sweep coverage";
      checks = [];
      excludes =
          "tools/toolchain/llvm-test.sh" ∷ "tools/toolchain/llvm-obj-test.sh"
          ∷ "tools/toolchain/llvm-debug-test.sh" ∷ "tools/toolchain/llvm-std-test.sh"
          ∷ "tools/toolchain/llvm-toolchain-test.sh" ∷ "tools/toolchain/llvm-runtime-test.sh"
          ∷ "tools/toolchain/llvm-demo-test.sh" ∷ "tools/toolchain/llvm-c-*.py" ∷ [];
    })
    ∷ (record {
      patterns = "tools/fuzz/mcfuzz.py" ∷ [];
      gates =
          "fuzz" ∷ "fuzz-async" ∷ "fuzz-sanitize" ∷ "fuzz-asan" ∷ "fuzz-trap" ∷ "fuzz-trapsite"
          ∷ "fuzz-robust" ∷ "fuzz-failclosed" ∷ "fuzz-determinism" ∷ "fuzz-pipeline"
          ∷ "fuzz-artifacts" ∷ "fuzz-roundtrip" ∷ "fuzz-metamorphic" ∷ "fuzz-optlevel"
          ∷ "fuzz-floatbits" ∷ "fuzz-reference" ∷ "fuzz-corpus" ∷ [];
      reason =
          "mcfuzz framework changes need the current mcfuzz oracle family and persisted corpus replay";
      checks = [];
      excludes = [];
    })
    ∷ (record {
      patterns = "tools/fuzz/mcref.py" ∷ [];
      gates = "fuzz-reference" ∷ [];
      reason = "reference interpreter changes need the independent reference oracle";
      checks = [];
      excludes = [];
    })
    ∷ (record {
      patterns = "tools/fuzz/corpus/*.mc" ∷ [];
      gates = "fuzz-corpus" ∷ [];
      reason = "persisted mcfuzz regression corpus changes need corpus replay";
      checks = [];
      excludes = [];
    })
    ∷ (record {
      patterns =
          "std/**/*" ∷ "tests/qemu/**/*" ∷ "tools/arch/*" ∷ "tools/proc/*" ∷ "tools/mem/*" ∷ [];
      gates = "fast" ∷ [];
      reason = "std/QEMU freestanding changes need host confidence";
      checks = [];
      excludes = "tools/arch/qemu-mmio-test.sh" ∷ [];
    })
    ∷ []
