-- ===== src/Agent.antt =====
-- The node agent of internal/agent: what it collects on a node, and how it bounds and filters it.
pub mod Types
pub mod Cni
pub mod Commands
pub mod Glob
pub mod Collector
