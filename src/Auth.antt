-- ===== src/Auth.antt =====
-- internal/features/auth: passwords, tokens, and who a request speaks for.
pub mod Domain
pub mod Password
pub mod PasswordLaws
pub mod Tokens
pub mod Service
pub mod Authority
pub mod Revocation
pub mod Requests
