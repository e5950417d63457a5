-- ===== src/Debug.antt =====
-- go/debug/gdbstub.go: the stub that lets a debugger drive an emulated program.
pub mod Text
pub mod Packet
pub mod Client
mod Tests
