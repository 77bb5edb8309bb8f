-- ===== src/Auth.antt =====
-- backend/meshive/auth: who may do what, and how often.
pub mod RateLimit
pub mod Permissions
pub mod Access
pub mod Credentials
