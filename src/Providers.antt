-- ===== src/Providers.antt =====
-- src/amberclaw/providers/resilience.py: health counters, circuit breaker, bulkhead.
pub mod Health
pub mod Breaker
pub mod Bulkhead
mod Tests
