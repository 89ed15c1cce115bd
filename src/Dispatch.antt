-- ===== src/Dispatch.antt =====
-- The dispatcher of internal/flowc/dispatch.
pub mod Queue
pub mod Deployment
pub mod Gateway
