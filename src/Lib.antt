-- ===== src/Lib.antt =====
-- A model of the order processing of go-api-project-template, an HTTP service of hexagonal modules
-- over PostgreSQL, and what holds of it.
--
-- The program. A customer fills a cart (internal/features/cart) with products
-- (internal/features/product) whose stock is kept by internal/features/inventory. Checkout
-- (internal/features/checkout) asks the order module (internal/features/order) to place an order,
-- which reserves stock, takes a coupon (internal/features/promotion) and clears the cart in one
-- transaction, and asks the payment module (internal/features/payment) to charge it. A charge that
-- succeeds, at once or by a webhook, is finalized: order and payment become paid and the stock is
-- deducted. Cancelling, expiring and refunding an order give stock and coupon back. Shipping
-- (internal/features/shipping) moves a paid order on.
--
-- The files.
--   Prelude          Names that the other modules share: native numbers, integers with the wrap-around
--                    of int64 (Prelude/Int), Boolean tests and lists.
--   Errs             internal/platform/errs, internal/apperror, and HandleErr of
--                    internal/platform/web/response.
--   Money            internal/money/money.go.
--   Database         internal/platform/database/transaction.go as a monad: a world is the tables, a
--                    count of statements and the state of the transaction. Its children have the
--                    rules: Keeps for invariants of the tables, Ensures for what holds
--                    where an action returns, Tx for what a transaction
--                    promises, Leads for what
--                    an action makes of the tables, Returns for actions that cannot fail, Clean for actions that
--                    change nothing when they fail.
--   Schema           The tables of db/migrations and the environment.
--   Platform         Breaker: internal/platform/redis/circuit_breaker.go; BreakerLaws. Slug:
--                    internal/platform/slug. RateLimit: the limiter in the process of
--                    internal/platform/web/middleware/ratelimit.go; RateLimitKeys, RateLimitLaws and
--                    RateLimitBounds are about it. Paging: internal/platform/paging and the pages of a
--                    listing by cursor; PagingLaws, PagingWalk and CursorText are about it.
--   User             internal/features/user: Domain, Repository, Service; Admins is about the guarded
--                    statements.
--   Auth             internal/features/auth: Password, Tokens (adapter/jwt), Service; PasswordLaws,
--                    Authority and Revocation are about them, Requests is the handlers that write users
--                    and runs of them.
--   Category         internal/features/category: Domain, Repository, Service; Tree and Moves are about the
--                    statements, Requests is the handlers that write and runs of them.
--   Order            Domain (order.go, state.go), Repository (adapter/postgres), Service, Place (the
--                    method Place of service.go); State and Lifetime are about the transition table,
--                    Pricing about the loop over the cart.
--   Payment          Domain, Gateway (gateway.go), Repository (adapter/postgres and adapter/jobs),
--                    and service.go in four: Charge, Finalize, Webhook, Refund;
--                    FinalizeSteps, FinalizeRun, FinalizeLaws, WebhookLaws and RefundLaws are about
--                    them.
--   Inventory        Levels (rows and updates), Repository, Service; Counts, Batches, Laws,
--                    Rows and Conservation are about the batch updates.
--   Promotion        Domain, Repository, Service; Laws and Limit.
--   Cart             Domain, Repository, Service; Limit.
--   Product          The lookups of products that the cart makes; Catalogue and Listings
--                    (adapter/postgres/repository.go) and Service are the rest of
--                    internal/features/product.
--   Review           internal/features/review; Laws.
--   Notification     Create of internal/features/notification/service.go.
--   Checkout         internal/features/checkout/service.go; CheckoutLaws.
--   Shipping         internal/features/shipping.
--   System           Requests: the handlers that write, as one data type, and runs of them. Laws and
--                    Keeps: an invariant of orders and payments that each UPDATE and INSERT keeps is
--                    kept by every request. Flags, History and PaymentHistory are such invariants;
--                    AllOrNothing is about failing requests.
--   Tests            A small world and the theorems at it.
-- A Go method has the name of its function in snake case; a method whose body is a closure in a
-- transaction has the closure as a function of its own, with the suffix _body, and what follows a call
-- is a function of its own where the code branches on the call's error.
--
-- The environment. What the program calls and does not implement is a field of Schema.Env: the clock,
-- the payment gateway, the floor of a percentage in floating point, the HMAC, the JSON parser, and the
-- job queue. What the accounts need besides, such as Argon2id, the signature of tokens and what a token
-- with the right signature says, is Auth.Domain.AuthEnv and Hashing; the checks of a token that Verify asks
-- golang-jwt for (an HMAC method, an expiry, the issuer) are written out. Every statement, begin and commit can fail for a reason outside the program: the field
-- fault says so for the n-th one. Inside a transaction a failed statement, or a violated constraint,
-- aborts it: each later statement fails, and a commit rolls back with an error. A failed commit is
-- taken to have rolled back.
--
-- Bounds. Amounts are integers with the wrap-around of int64. Quantities, stock, token
-- versions and counts of uses are natural numbers, with the upper bound of an INT column checked where a statement writes one: the columns have CHECK
-- constraints, and requests a minimum. Identifiers and times are natural numbers that are compared; a
-- key that the database draws is the next of a counter. All loops are over lists, but
-- for two: the query for the ancestors of a category stops at the depth that the code gives it, and the
-- client that follows the cursors of a listing runs on fuel, one page more than there are rows, which is
-- enough.
--
-- Not modelled. Handlers run one after the other: two requests do not interleave, so row locks have no
-- effect. Logging, tracing and the redis caches are left out (inside a transaction the promotion cache
-- passes on to the tables). Coupons and notifications are always wired. HTTP decoding, the listings of
-- orders, payments, promotions, notifications and users, reports, wishlists, the read-through cache, the
-- mock gateway, the foreign keys of the other tables than categories, products and images, and the
-- pattern on currencies are not modelled.
pub mod Prelude
pub mod Errs
pub mod Money
pub mod Database
pub mod Platform
pub mod Schema
pub mod User
pub mod Auth
pub mod Category
pub mod Order
pub mod Payment
pub mod Inventory
pub mod Promotion
pub mod Product
pub mod Cart
pub mod Review
pub mod Notification
pub mod Checkout
pub mod CheckoutLaws
pub mod Shipping
pub mod System
pub mod Tests
