-- ===== src/Delivery.antt =====
-- Outbound delivery of support replies: app/support_delivery.py and
-- app/support_delivery_repository.py.
pub mod Message
pub mod ContactForward
pub mod Table
pub mod Claim
pub mod Finish
pub mod Trace
mod Occupancy
pub mod AtMostOnce
mod Effects
mod RowStep
pub mod Moves
pub mod EveryMove
pub mod Payload
pub mod Attempt
pub mod Verdicts
pub mod Undisturbed
pub mod Lifecycle
mod Examples
