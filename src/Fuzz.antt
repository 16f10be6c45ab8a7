-- ===== src/Fuzz.antt =====
-- Oracles and the shrinker of the fuzzing framework, tools/fuzz/mcfuzz.py.
pub mod Shrink
pub mod Keys
pub mod Rows
pub mod Numbers
pub mod Edges
pub mod Result
pub mod Facts
pub mod MapFile
pub mod Artifacts
pub mod Examples
pub mod Differential
pub mod Reference
pub mod Robust
pub mod Format
pub mod Variants
pub mod Stages
pub mod Digits
pub mod Signature
pub mod Patterns
pub mod Buckets
pub mod Triage
pub mod Commands
pub mod Repro
pub mod Cases
