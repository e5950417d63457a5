-- ===== src/Trace/Pack.antt =====
-- go/models/trace/ops.go: `Pack` and `packOps`, which write into a buffer that the caller allocates.
-- `none` is a run-time panic: a store, or a slice bound, past the end of the buffer.
pub mod Writes
pub mod Encode
pub mod Bytes
