-- ===== src/Order.antt =====
-- internal/features/order: its domain, its repository and its service, each in a module below.
pub mod Domain
pub mod State
pub mod Lifetime
pub mod Repository
pub mod Service
pub mod Place
pub mod Pricing
