-- ===== src/Ref/Gen.antt =====
-- The generator of tools/fuzz/mcref.py: `RefGen` up to `build`, less the layout constructs.
pub mod State
pub mod Expr
pub mod Block
pub mod Build
pub mod Offsets
pub mod Overlays
pub mod Switches
pub mod Unions
pub mod Constructs
