-- ===== src/Routing.antt =====
-- glc/routing.py: the providers, their limits, and the two failover rings.
pub mod Providers
pub mod RateState
pub mod Ring
pub mod Pick
pub mod Quota
mod Tests
