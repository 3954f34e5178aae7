-- ===== src/Tests.antt =====
-- The theorems at concrete inputs, with whole numbers for floating point and for ids.
pub mod Data
pub mod Inputs
mod Ranking
mod Reading
mod Writing
mod Searching
mod Sessions
mod Tuning
mod Keys
mod Requests
mod Vaults
mod Memories
mod Bridge
mod Starting
