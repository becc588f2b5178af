-- ===== src/Projex.antt =====
-- ingress-service/internal/yunxiao/projex
pub mod Payload
pub mod Auth
pub mod Normalizer
pub mod Outcome
pub mod Fields
