-- ===== src/Examples.antt =====
-- The theorems at concrete inputs, by the part of the program that they are about.
pub mod Agent
pub mod Analyzer
pub mod Controller
pub mod Server
pub mod Stores
pub mod Labs
pub mod Runs
