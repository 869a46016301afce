-- ===== src/UserSignup.antt =====
-- backend/internal/usersignup: signup tokens with a limited number of uses.
pub mod SignupTokenActor
pub mod Service
mod Tests
