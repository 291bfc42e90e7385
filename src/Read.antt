-- ===== src/Read.antt =====
-- src/read.rs: the read scheduler. Its state, the poll of one file, the drive loop, and the public
-- operations are the first four modules.
pub mod State
pub mod Files
pub mod Drive
pub mod Api
pub mod Contract
pub mod Layout
pub mod Feed
pub mod Order
pub mod Steps
pub mod Progress
