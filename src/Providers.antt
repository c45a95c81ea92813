-- ===== src/Providers.antt =====
-- glc/providers.py: what is decided before a provider is called.
pub mod Models
pub mod Schema
mod Tests
