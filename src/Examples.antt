-- ===== src/Examples.antt =====
-- The theorems at concrete inputs, and tests of the definitions.
mod Running
mod Script
mod Lawful
mod Values
mod Times
mod Written
mod Spelt
mod Addressed
mod Kept
mod Replayed
mod Fresh
mod Ids
mod Polled
mod Keys
mod Heard
mod Counted
