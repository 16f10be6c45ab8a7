-- ===== src/PassGates.antt =====
-- tools/ci/pass-gates.py: the PASS lines that CI must see, against the manifest of the gates.
pub mod Scan
pub mod Manifest
pub mod Check
pub mod Log
pub mod Examples
