-- ===== src/Trace.antt =====
-- go/models/trace: the binary trace of an emulated program.
pub mod Op
pub mod Pack
pub mod Unpack
pub mod File
pub mod Batch
pub mod Replay
pub mod Collect
mod Tests
