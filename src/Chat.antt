-- ===== src/Chat.antt =====
-- glc/routes/chat.py: a chat request, from the choice of a provider to its answer.
pub mod Backoff
pub mod Upstream
pub mod Failover
pub mod Rounds
pub mod Asking
pub mod Rows
pub mod Serving
pub mod Override
pub mod Prompt
pub mod Tier
mod Tests
