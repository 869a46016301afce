-- ===== src/EmailVerification.antt =====
-- backend/internal/emailverification: the outstanding verification of a user's email address.
pub mod VerificationActor
mod Tests
