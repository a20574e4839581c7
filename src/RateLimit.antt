-- ===== src/RateLimit.antt =====
-- Quotas on the turns of the assistant: app/ai_rate_limit.py.
pub mod Memory
pub mod Script
pub mod Quota
pub mod Agreement
mod Examples
