-- ===== src/MapVerify.antt =====
-- tools/toolchain/mcmap-verify.py, which compares the digests in the header of a source map or a metadata
-- file with the files that it stands for.
pub mod Bundle
pub mod Verify
pub mod Steps
pub mod Digests
pub mod Accepted
pub mod Lines
pub mod Body
pub mod Examples
