-- ===== src/System.antt =====
-- The whole program: every entry point as a request, and what holds of the tables after any
-- sequence of requests.
pub mod Laws
pub mod Keeps
pub mod Requests
pub mod AllOrNothing
pub mod Flags
pub mod History
pub mod PaymentHistory
