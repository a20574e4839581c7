-- ===== src/Timing.antt =====
-- Responsibility periods: app/support_timing.py.
pub mod Periods
pub mod Projection
pub mod Tiling
pub mod Steps
pub mod Accounted
pub mod Credit
mod Examples
