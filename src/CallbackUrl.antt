-- ===== src/CallbackUrl.antt =====
-- backend/internal/utils/callback_url_util.go: which redirect URLs a client's list of URL patterns
-- allows. Texts are lists of bytes. Go's net/url, net and path, and the package go-urlpattern, are
-- the operations of `Library`.
pub mod Bytes
pub mod Normalize
pub mod Matching
pub mod Selection
pub mod Validation
pub mod Queries
mod Tests
