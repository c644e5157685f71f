-- ===== src/Seed.antt =====
-- internal/seed: the deterministic fixture plans, the rows that they seed and the prepare phases.
pub mod Value
pub mod Generic
pub mod Billing
pub mod Apply
pub mod Metadata
pub mod Integrity
pub mod Nulls
mod Tests
