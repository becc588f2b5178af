-- ===== src/Flow.antt =====
-- ingress-service/internal/yunxiao/flow
pub mod Payload
pub mod Auth
pub mod Normalizer
pub mod Outcome
pub mod Params
