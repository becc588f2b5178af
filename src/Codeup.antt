-- ===== src/Codeup.antt =====
-- ingress-service/internal/yunxiao/codeup
pub mod Payload
pub mod Auth
pub mod Normalizer
pub mod Refs
pub mod Outcome
pub mod Fields
pub mod MergeRequest
pub mod Push
pub mod Note
