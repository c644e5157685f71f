-- ===== src/Scenario.antt =====
-- internal/scenario: the scenarios of the workload, and their registry.
pub mod Types
pub mod Steps
pub mod Generic
pub mod Billing
pub mod Probe
pub mod Catalog
pub mod Keeps
pub mod Registry
mod Tests
