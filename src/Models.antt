-- ===== src/Models.antt =====
-- go/models: small pieces of state that the emulator keeps beside the cpu.
pub mod Gate
pub mod Callstack
pub mod Segment
pub mod Status
pub mod Loop
mod Tests
