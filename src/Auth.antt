-- ===== src/Auth.antt =====
-- internal/auth: whose token it is, and what its agent may do.
pub mod Token
pub mod Authenticator
pub mod Safety
pub mod Tests
