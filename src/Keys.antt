-- ===== src/Keys.antt =====
-- The dedup keys that the adapters of ingress-service/internal/yunxiao build from several fields.
pub mod Colons
pub mod Digits
pub mod Separation
pub mod Runs
pub mod Subjects
