-- ===== src/Orchestrator.antt =====
-- The orchestrator service (Python): what takes the events that the ingress service publishes.
pub mod Registry
pub mod Text
pub mod Session
pub mod Retry
pub mod Consumer
