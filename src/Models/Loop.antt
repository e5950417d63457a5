-- ===== src/Models/Loop.antt =====
-- go/models/loopdetect.go: a ring of the last addresses, and the search for a run that repeats.
pub mod Ring
pub mod History
pub mod Detect
pub mod Shortest
