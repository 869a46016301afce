-- ===== src/Oidc.antt =====
-- backend/internal/oidc: what a client may be granted, and what a user has to do before an
-- authorization request is granted. Texts are lists of bytes. The protocol engine is the third-party
-- library fosite: of its errors the model keeps the names.
pub mod Scopes
pub mod Resource
pub mod Consent
pub mod Interaction
pub mod Steps
pub mod Request
pub mod Authorization
pub mod Device
mod Tests
