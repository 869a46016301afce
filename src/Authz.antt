-- ===== src/Authz.antt =====
-- backend/internal/authz: scopes, principals, and the middleware that enforces a route's scope.
pub mod Scope
pub mod Principal
pub mod Middleware
pub mod Authenticators
mod Tests
