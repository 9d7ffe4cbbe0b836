-- ===== src/Analyzer.antt =====
-- internal/analyzer: the recommendations for resources, and the correlation of the network's datapath.
pub mod Float
pub mod Resource
pub mod Iptables
pub mod Series
