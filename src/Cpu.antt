-- ===== src/Cpu.antt =====
-- go/models/cpu: the memory, registers and hooks of an emulated cpu.
pub mod Page
pub mod Pages
pub mod MemSim
pub mod Space
pub mod Search
pub mod PackUint
pub mod Regs
pub mod Hooks
pub mod Mem
mod Tests
