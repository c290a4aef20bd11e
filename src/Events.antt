-- ===== src/Events.antt =====
-- backend/events: the durable journal of run events, its pages, and how they are sent.
pub mod Contracts
pub mod Journal
pub mod Page
pub mod Bus
pub mod Stream
pub mod Delivery
pub mod Outbox
pub mod Relay
pub mod Batch
pub mod Drain
pub mod Order
pub mod Sent
