-- ===== src/Store.antt =====
-- The in-memory conversation store: InMemoryConversationStore of app/conversation_store.py.
pub mod Guards
pub mod Exclusive
pub mod OneWorker
pub mod Inbox
pub mod Conserved
pub mod Order
mod Examples
