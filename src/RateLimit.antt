-- ===== src/RateLimit.antt =====
-- rate_limit.py: quotas by namespace, the token bucket, the rolling counters and the enforcer.
pub mod Quota
pub mod Bucket
pub mod Counter
pub mod Enforcer
