-- ===== src/Ratelimit.antt =====
-- core/src/ratelimit: limits on traffic.
pub mod TokenBucket
