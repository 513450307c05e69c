-- ===== src/Policy.antt =====
-- internal/policy: the engine that decides (engine.go), the Cedar text that it authorises against
-- (convert.go), and the executor that acts (executor.go).
pub mod Cedar
pub mod Engine
pub mod Executor
