-- ===== src/System/Keeps.antt =====
-- Every operation of the repositories and of the services keeps an invariant that satisfies the
-- laws, whatever statement fails.
pub mod Stock
pub mod Coupons
pub mod Carts
pub mod Orders
pub mod Place
pub mod Payments
pub mod Charges
pub mod Checkout
