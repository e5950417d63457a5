-- ===== src/Corn.antt =====
-- go/usercorn.go: the emulator of one program, over the mappings of go/task.go.
pub mod Load
pub mod Bounds
pub mod Heap
pub mod Calls
pub mod Breaks
pub mod Run
pub mod Rewind
pub mod Shellcode
mod Tests
