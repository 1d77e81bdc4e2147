-- ===== src/User.antt =====
-- internal/features/user: the accounts, and the rule that an active admin remains.
pub mod Domain
pub mod Repository
pub mod Service
pub mod Admins
