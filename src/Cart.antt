-- ===== src/Cart.antt =====
-- internal/features/cart: the cart and its total, the repository's statements and the service, each
-- in a module below.
pub mod Domain
pub mod Repository
pub mod Service
pub mod Limit
