-- ===== src/HttpServer/Order.antt =====
-- The order in which the handlers of ingress-service/internal/httpserver/server.go store and publish.
pub mod Adapters
pub mod Persist
pub mod Answers
