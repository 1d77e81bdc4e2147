-- ===== src/Promotion.antt =====
-- internal/features/promotion: coupons, the repository's statements and the service, each in a
-- module below.
pub mod Domain
pub mod Repository
pub mod Service
pub mod Laws
pub mod Limit
