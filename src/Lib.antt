-- ===== src/Lib.antt =====
-- A model of the WhatsApp support assistant: the parts of the Python service that decide whether a
-- message is sent, handled or answered, and when, and who may do what to a ticket.
--
-- The service takes customers' messages from WhatsApp, answers them with a language model where
-- the quotas allow it, and lets staff answer in tickets. An incoming message is claimed and queued
-- in the conversation store; an answer of the model passes the rate limiter; a reply of the staff
-- is a row of a table, and delivery workers claim it, hand it to the provider and record the
-- outcome, while maintenance tasks and lifecycle changes update the same rows.
--
-- Delivery models app/support_delivery_repository.py and app/support_delivery.py. Delivery.Message
-- has the rows, Delivery.Table the effect of an UPDATE. Delivery.Claim has claim_delivery and
-- begin_delivery; Delivery.Finish has finish_delivery, interrupt_delivery,
-- recover_abandoned_deliveries, expire_held_replies and _fence_deliveries_for_lifecycle, with
-- failure_policy of app/whatsapp_failures.py. Each is one transaction, and is one function on the
-- database; Delivery.Trace runs sequences of them, which are the interleavings of the workers. These
-- calls are the ones of the delivery repository. The provider's callbacks (apply_delivery_status,
-- in Receipts) and the confirmations of linked devices (confirm_linked_device_outgoing, not
-- modelled) write the status of a reply too, and are not among them. Delivery.Moves says which call
-- may take a row from one status to another.
-- Delivery.Payload and Delivery.Attempt have `deliver` and `_deliver_claimed`; what other tasks do
-- between the calls of an attempt, the clock, the transport and the media store are parameters.
-- RateLimit models app/ai_rate_limit.py: RateLimit.Memory has _consume_memory, consume and
-- claim_notice, RateLimit.Script the Lua script that Redis runs.
-- Store models InMemoryConversationStore of app/conversation_store.py: Store.Guards has the timed
-- claims on messages, conversations and replies, Store.Inbox the queues of incoming work.
-- Availability models app/ai_availability.py, which says whether the assistant answers:
-- Availability.Schedule has the daily schedule and its next transition, Availability.Settings
-- the settings row, its audit and its validation, Availability.Control the update, with what other
-- sessions commit before the row is read again as a parameter. The string methods of Python and the
-- zones of ZoneInfo, which finds a key, does not find it or calls it malformed, are a parameter,
-- with the laws that the proofs need as named hypotheses.
-- Timing models responsibility_periods of app/support_timing.py: Timing.Periods has the loop's body
-- on each event of a ticket's audit, Timing.Projection the whole projection.
-- Tickets models the life of tickets and staff chats, app/support_repository.py with the guards of
-- app/support_models.py: Tickets.Model has the rows, Tickets.Table the reads and writes,
-- Tickets.Lifecycle what happens to an open ticket (claim_ticket to
-- auto_resolve_idle_phone_app_ticket), Tickets.Reopen the closing and reopening of conversations,
-- Tickets.Open their creation, binding to a line and deletion, Tickets.Trace sequences of these
-- transactions. Where an operation reads its ticket again after the commit, what other tasks commit
-- in between is a parameter. Tickets.Desk has the requests of app/support_service.py on top of them,
-- with what other tasks commit between a request's reading and its transaction as another parameter.
-- Both use the fence of Delivery. Tickets.OpenAt has _ticket_open_at, which tells from the audit whether a
-- conversation was open when a message was sent, and ticket_for_delayed_inbound; Tickets.Phone has
-- normalize_phone of app/customer_directory.py. Tickets.Change describes what an operation may do to the rows; the proofs about
-- all operations go through it.
-- Receipts models apply_delivery_status of app/support_repository.py, on one table of messages.
--
-- A clock is a natural number: microseconds for the database and the audit, milliseconds for the
-- rate limiter, seconds for the store. Where the source subtracts an interval from the present, the
-- model adds it on the other side. Tokens and UUIDs are arguments, since the source draws them at
-- random, and may be equal. The text of a number has fuel of one more than the number, which is
-- more than its digits. The search for the next transition of the schedule has the source's own
-- bound of 2885 minutes. No other definition has fuel: loops go over lists.
--
-- Not modelled: logging, failures of the database and of Redis beyond the answers that the code
-- tests for, the SELECT-only listings, Redis storage of conversations, HTTP routing, the provider
-- clients, the language model, the messages and media of tickets beyond their delivery, the notices and
-- cached conversations that follow a request, the deletion audit, the browser code and the Node
-- bridge.
pub mod Prelude
pub mod Delivery
pub mod RateLimit
pub mod Store
pub mod Availability
pub mod Timing
pub mod Tickets
pub mod Receipts
