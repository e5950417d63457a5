-- ===== src/Trace/Unpack.antt =====
-- go/models/trace/ops.go: `Unpack`, `unpackOps` and the `Unpack` method of each operation.
pub mod Reader
pub mod Decode
pub mod Fields
pub mod RoundTrip
pub mod Total
pub mod Wrapped
pub mod Errors
