-- ===== src/Ref.antt =====
-- tools/fuzz/mcref.py: the reference interpreter of the unsigned core, and its generator.
pub mod Types
pub mod Syntax
pub mod Scope
pub mod Typing
pub mod Eval
pub mod Layout
pub mod Random
pub mod Gen
pub mod Digest
pub mod Render
pub mod Examples
