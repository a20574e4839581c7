-- ===== src/Receipts.antt =====
-- Receipts for outgoing messages: apply_delivery_status of app/support_repository.py.
pub mod Model
pub mod Order
pub mod Examples
