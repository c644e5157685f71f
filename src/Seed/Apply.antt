-- ===== src/Seed/Apply.antt =====
-- internal/seed/apply.go: the INSERT statements of the fixtures, and the prepare phases.
pub mod Insert
pub mod Fixtures
pub mod Schema
pub mod Phases
pub mod Placeholders
pub mod Totality
pub mod Prepare
pub mod Progress
