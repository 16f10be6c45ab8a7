-- ===== src/Gates/Rules.antt =====
-- The table `RULES` of tools/dev-gates.py, in its order.
mod Compiler
mod Tools
mod Sweeps
mod Backends
use modern_c.Prelude.{List, ◌++◌}
use modern_c.Gates.Rule.{Rule}
use modern_c.Gates.Rules.Compiler.{compiler_rules}
use modern_c.Gates.Rules.Tools.{tool_rules}
use modern_c.Gates.Rules.Sweeps.{sweep_rules}
use modern_c.Gates.Rules.Backends.{backend_rules}

unfoldable pub all_rules : List Rule
unfolding compiler_rules tool_rules sweep_rules backend_rules
all_rules = compiler_rules ++ (tool_rules ++ (sweep_rules ++ backend_rules))
