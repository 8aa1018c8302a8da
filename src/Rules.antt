-- ===== src/Rules.antt =====
-- crates/core/src/rules.rs: the rules that a record keeps once it reads. The children hold the
-- open's, the amend's and the answer's; the checks that they share are in Fields.
pub mod Fields
pub mod Opening
pub mod Amending
pub mod Answering
pub mod Distinct
pub mod Sound
pub mod Verdicts
pub mod Answered
