-- ===== src/Controller.antt =====
-- The reconcilers of internal/controller, one module for each group of functions.
pub mod Naming
pub mod Checks
pub mod Jobs
pub mod Finalizers
pub mod Snapshots
pub mod Status
pub mod Client
pub mod Objects
pub mod Monitoring
pub mod Reports
pub mod ResourceLab
pub mod NetworkRun
