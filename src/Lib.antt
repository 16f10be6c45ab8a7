-- ===== src/Lib.antt =====
-- Verification of the Python tools of modern-c, the MC language and its compiler.
--
-- The compiler turns MC programs into C and LLVM. Its strongest test is a differential one: a tool
-- generates a program, computes what the program must return, and compares that with what each backend
-- returns. This library models that tool, most of the framework around it, the tool that picks the gates
-- for a change, and smaller tools of the gates: the sweep library, the causes of refusals, the check of
-- PASS lines and the verifier of source maps.
--
-- The reference oracle, tools/fuzz/mcref.py, is modelled in Ref:
--   Ref/Types     REF_TYPES, _mask, and the names that RefGen._new makes
--   Ref/Syntax    the classes Lit .. EarlyRet; a closure over the environment is a Source
--   Ref/Scope     the dict `scope`: type_of reads it, declare extends it
--   Ref/Eval      the eval methods. The environment is a function into Option; a missing key is
--                 key_error, RetSignal is ret_signal, and a while loop runs on fuel: `rounds`
--                 grants it at most that many tests of its condition. The generator bounds each
--                 loop by 4, so 5 are enough
--   Ref/Typing    the discipline that the docstring of the file gives, as predicates (a specification)
--   Ref/Random    the random module: a tape of arbitrary draws stands for random.Random(seed), so
--                 what holds on every tape holds for every seed; a draw fails where Python raises,
--                 on an empty choice or range. The recursion of gen_cond and gen_block has a depth
--                 bound in the source, which the model counts down
--   Ref/Gen       RefGen: State, Expr (_lit_val .. gen_cond), Block (gen_block), Build (build),
--                 Offsets (gen_offset_structs), Overlays, Switches, Unions, Constructs
--   Ref/Layout    _align_up, OffsetStruct, OverlayUnion
--   Ref/Digest    _extra_value and evaluate
--   Ref/Render    the render methods and source
-- The generator builds a program (build), source renders it for the compiler, and evaluate gives the
-- value that the compiled program must return. The proofs stand below the code they are about:
-- Eval/Range, Eval/Total, Eval/Runs and Eval/Loops on the interpreter, Gen/*/Typed and Gen/*/Safe on
-- what the generator may build, Gen/Overlays/Storage on the bytes of an overlay, Ref/Examples for the
-- theorems at concrete inputs.
--
-- The selection of gates, tools/dev-gates.py, is modelled in Gates:
--   Gates/Match   matches, with what it uses of fnmatch and pathlib
--   Gates/Rule    the class Rule and when a rule takes a path; Gates/Rules is the table RULES
--   Gates/Route   host_manifest_gates and spec_fixture_gates; the content of a file is an argument
--   Gates/Select  the loop of select_gates, its `seen` sets included. Select/Wants says what each path
--                 asks for, Select/Seen what a list without repetition holds; Select/Laws compares
--   Gates/Run     changed_files, focused_run_commands, run_focused_commands and main; the effect of a
--                 command on a state of any type is an argument, as is what git prints
-- Gates/Examples has tests on the real table and the theorems at concrete inputs.
--
-- Of the fuzzing framework, tools/fuzz/mcfuzz.py, these parts are modelled in Fuzz:
--   Fuzz/Shrink     shrink_source: the inner loop is a recursion on len(lines) - i, the outer one on fuel,
--                   one more than the lines, since a pass that changes something takes a line out. The
--                   oracle and finding_signature are arguments; the oracle answers alike for the same
--                   text
--   Fuzz/Keys       splitlines and the regular expression _KV_RE, with its backtracking
--   Fuzz/Rows       _unescape_map_string, _parse_kv, and the dict as an association list
--   Fuzz/Numbers    int() of a text, with ASCII digits; _positive_int
--   Fuzz/Result     a value or a complaint; a complaint is a constructor that carries what the message
--                   names
--   Fuzz/Edges      _parse_trap_edges and _check_trap_edge_counts
--   Fuzz/Facts      _checked_fact_traps and _check_checked_facts_reach_ir
--   Fuzz/MapFile    _parse_mcmap_entries and _check_emit_map
--   Fuzz/Artifacts  _run_required_stage and oracle_artifacts; what running a stage gives is an argument
--   Fuzz/Differential  the decisions of _differential_compare and oracle_trapsite, with
--                   _trapsite_outcome; what compilers, linker and programs give is an argument,
--                   and so is the decoding of bytes as UTF-8 with replacement
--   Fuzz/Reference  oracle_reference, which joins Ref to the compiler: the program that build makes is
--                   rendered, compiled and run, and the output compared with evaluate
--   Fuzz/Robust     oracle_robust: _mutate and _hostile_frontend_case on the tape of Ref/Random, and
--                   _check_no_crash
--   Fuzz/Format     oracle_roundtrip, with _stripped_lex_stream and _roundtrip_c_body
--   Fuzz/Variants   oracle_sanitize, oracle_asan, oracle_metamorphic, oracle_optlevel, oracle_floatbits
--   Fuzz/Stages     oracle_failclosed, oracle_determinism, oracle_pipeline
--   Fuzz/Signature  _split_finding, _finding_body and _signature_fallback
--   Fuzz/Patterns   the regular expressions of finding_signature, and Fuzz/Buckets its tests; str.lower
--                   and the characters of \w are arguments
--   Fuzz/Triage     run_one, oracle_on_source, and what main does with the results of the runs
--   Fuzz/Commands   the commands that run a finding again
--   Fuzz/Repro      _triage_record and _auto_shrink_failures
-- Facts/Rows, Facts/Reach, Differential/Outcome, Differential/Agreement, Robust/Changed, Robust/Total,
-- Format/Stable, Variants/Alike, Stages/Closed, Triage/Seed, Triage/Loop and Repro/Once hold the proofs;
-- Fuzz/Digits shows that a number is read again from its digits.
-- Fuzz/Examples and Fuzz/Cases have tests and the theorems at concrete inputs.
--
-- The library of the sweeps, tools/toolchain/spec_sweep_lib.py, is modelled in Sweep:
--   Sweep/Chunks    split_top_level, on fuel: the length of the source, which every step shortens
--   Sweep/Names     _without_comments, declared_names and referenced_names with their regular
--                   expressions; the characters of \w stand in tables of Unicode and are an argument
--   Sweep/Keep      is_rejected_chunk and _keep_flags, on fuel: one more than the chunks that are not
--                   rejected, since a round that goes on drops one
--   Sweep/Valid     strip_expect_error, normalize_valid_chunk and valid_program
-- Chunks/Lossless, Keep/Stable, Keep/Greatest, Valid/Heads, Valid/Prototype, Valid/Extern and
-- Valid/Positive hold the proofs, Sweep/Examples tests.
--
-- The causes of refusals, tools/toolchain/backend_gap_lib.py, are modelled in Gap: render_cause,
-- parse_cause with the regular expression, whose lazy category is the shortest that lets the rest match,
-- and cause_problem. Gap/RoundTrip, Gap/Found, Gap/Causes and Gap/Valid hold the proofs, Gap/Examples tests. Json is
-- what json.loads gives, with isinstance and dict.get.
--
-- The check of PASS lines, tools/ci/pass-gates.py, is modelled in PassGates:
--   PassGates/Scan      names_in_array, block_after and m0_dependencies, and the errors of fail
--   PassGates/Manifest  read, read_json, require_unique and the functions on ci_pass_assertions
--   PassGates/Check     check_static; its tables ARRAYS and MIN_GATE_COUNTS are empty in the source, and
--                       the loops over them are modelled all the same
--   PassGates/Log       tier_names, assert_log and the commands of main
-- The files and json.loads are arguments. Check/Deps, Check/Wired and Log/Reported hold the proofs, PassGates/Examples
-- tests.
--
-- The verifier of source maps, tools/toolchain/mcmap-verify.py, is modelled in MapVerify:
--   MapVerify/Bundle  parse_bundle and the reading of one header; a text stands for bytes
--   MapVerify/Verify  verify; the files and SHA-256 are arguments
-- MapVerify/Steps, Digests, Accepted, Lines and Body hold the proofs, MapVerify/Examples tests.
--
-- Prelude holds the shared names, tests, list and text helpers, and the bit operations: the native
-- bit_and, bit_or and bit_xor, with their bounds. Numbers are unbounded natural numbers, as Python's
-- are integers; every width is written out where the source masks.
--
-- Not modelled: the distribution of the random draws (every draw is arbitrary), the program generator
-- of mcfuzz (Gen), whose programs are an argument, the start of compiler processes, what the tools print,
-- the sweep scripts, text generators and test scripts, and the rest of the repository, which is Zig, MC, C and shell.
pub mod Prelude
pub mod Ref
pub mod Gates
pub mod Sweep
pub mod Gap
pub mod Json
pub mod PassGates
pub mod MapVerify
pub mod Fuzz
