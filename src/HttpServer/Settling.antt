-- ===== src/HttpServer/Settling.antt =====
-- The handlers of ingress-service/internal/httpserver/server.go give each raw event one status.
pub mod Duties
pub mod Rows
pub mod Persist
pub mod Handlers
pub mod Recorded
