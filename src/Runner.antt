-- ===== src/Runner.antt =====
-- internal/runner: the workers and the engine that runs them.
pub mod Scheduler
pub mod Plans
pub mod Step
pub mod Engine
mod Tests
