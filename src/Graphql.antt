-- ===== src/Graphql.antt =====
-- graphql/: the client of the Unraid API, its rate limiter, its cache and its metrics history.
pub mod TokenBucket
pub mod UnraidClient
pub mod CachingExecutor
pub mod LiveStore
pub mod MetricRing
pub mod MetricWindow
