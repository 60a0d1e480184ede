-- ===== src/Co.antt =====
-- include/uvpp/co: tasks, scopes, cancellation and resource scopes.
pub mod Cancellation
pub mod Await
pub mod ResourceScope
pub mod TaskScope
pub mod Sleep
pub mod Task
pub mod Spawn
