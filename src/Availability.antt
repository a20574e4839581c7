-- ===== src/Availability.antt =====
-- Availability of the assistant: app/ai_availability.py.
pub mod Schedule
pub mod Transition
pub mod Settings
pub mod Control
pub mod ReadBack
pub mod Causes
pub mod Updates
pub mod History
mod Examples
