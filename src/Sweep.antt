-- ===== src/Sweep.antt =====
-- tools/toolchain/spec_sweep_lib.py: how the sweeps take the negative cases out of a fixture.
pub mod Chunks
pub mod Keep
pub mod Names
pub mod Valid
pub mod Examples
