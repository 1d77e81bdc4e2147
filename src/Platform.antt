-- ===== src/Platform.antt =====
-- internal/platform: the parts that stand between the handlers and the services around them.
pub mod Breaker
pub mod BreakerLaws
pub mod Slug
pub mod Paging
pub mod PagingLaws
pub mod PagingWalk
pub mod CursorText
pub mod RateLimit
pub mod RateLimitKeys
pub mod RateLimitLaws
pub mod RateLimitBounds
