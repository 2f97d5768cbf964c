-- ===== src/RateLimit.antt =====
-- 08_reliability/01_rate_limiting.py: five limiters, each a state and its `allow(now)`, which
-- returns the new state and the decision. The two buckets are over any numbers (RateLimit.Numbers), signed ones
-- too, so `now - last` is what it is where a clock runs backwards; whether they round is said in the theorems.
-- The windows count whole ticks from 0 on.
pub mod Runs
pub mod Numbers
pub mod TokenBucket
pub mod LeakyBucket
pub mod Buckets
pub mod Spans
pub mod FixedWindow
pub mod SlidingLog
pub mod SlidingCounter
mod Bursts
mod Tests
