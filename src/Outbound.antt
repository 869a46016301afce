-- ===== src/Outbound.antt =====
-- backend/internal/outbound: which hosts and addresses the server's own requests may reach.
pub mod Text
pub mod Policy
pub mod Requests
mod Tests
