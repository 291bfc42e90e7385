-- ===== src/Write.antt =====
-- src/write.rs: the write scheduler. Its frames, its slots, its state, the drive loop and the public
-- operations are the first five modules.
pub mod Frames
pub mod Slots
pub mod State
pub mod Drive
pub mod Api
pub mod Steps
pub mod Progress
pub mod Contract
pub mod Replay
pub mod Runs
pub mod Bytes
pub mod Sized
pub mod Queue
pub mod Account
pub mod Session
