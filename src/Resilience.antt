-- ===== src/Resilience.antt =====
-- packages/resilience: each policy is a module of its own; none of them calls another.
pub mod Bulkhead
pub mod CircuitBreaker
pub mod RateLimiter
pub mod Retry
pub mod Hedge
pub mod Health
pub mod Fallback
mod Tests
