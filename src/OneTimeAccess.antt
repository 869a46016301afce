-- ===== src/OneTimeAccess.antt =====
-- backend/internal/onetimeaccess: login codes that are used once.
pub mod TokenActor
pub mod Service
mod Tests
