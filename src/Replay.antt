-- ===== src/Replay.antt =====
-- crates/core/src/case.rs: the fold of a case's rows, and the writer. `Taking` has `take` and what
-- it dispatches to, `Writing` and `Appending` the writer and `Folding` the
-- fold; the other children are theorems.
pub mod Taking
pub mod Writing
pub mod Appending
pub mod Folding
pub mod Passed
pub mod Atomic
pub mod Induction
pub mod Lifecycle
pub mod Amended
pub mod Question
pub mod Answer
pub mod Recount
pub mod Spelt
pub mod Stored
pub mod Listed
pub mod Refinement
pub mod Transitions
pub mod Trail
