-- ===== src/Auth.antt =====
-- The authentication of requests by tokens: src/common/auth.
pub mod Keys
pub mod Tokens
pub mod Startup
pub mod Requests
pub mod Views
pub mod Commands
