-- ===== src/Cpu/Hooks.antt =====
-- go/models/cpu/hooks.go: the callbacks of an emulated cpu. A callback is a number, and so is a hook,
-- which in Go is a pointer; a call of a callback is an entry in a list. The values of the hook types
-- and accesses are Unicorn's.
pub mod Kinds
pub mod Laws
