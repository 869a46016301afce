-- ===== src/DeviceLogin.antt =====
-- backend/internal/devicelogin: the request actor (actor.go) and the service that clients of the
-- actor go through (service.go).
pub mod RequestActor
pub mod Service
mod Tests
