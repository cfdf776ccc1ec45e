-- ===== src/Auth.antt =====
-- The authorisation and the lockout of nova-auth.
pub mod Rbac
pub mod BruteForce
