-- ===== src/Gates.antt =====
-- The selection of development gates: tools/dev-gates.py.
pub mod Match
pub mod Route
pub mod Rule
pub mod Rules
pub mod Select
pub mod Run
pub mod Examples
