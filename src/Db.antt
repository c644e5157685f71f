-- ===== src/Db.antt =====
-- internal/db: the sessions, and the cluster that gives them.
pub mod Session
pub mod Cluster
mod Tests
