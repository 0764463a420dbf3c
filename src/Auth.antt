-- ===== src/Auth.antt =====
-- Signing in: apiserver/service/auth and apiserver/controllers/commons/auth.go.
pub mod Lockout
pub mod SignIn
