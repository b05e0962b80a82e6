-- ===== src/Connector/Receive.antt =====
-- pkg/connector/handlewhatsapp.go and events.go: what each WhatsApp event puts on the bridge's
-- queue. A handler answers with the event that it queues, if any; its result `success` is true
-- where it queues nothing.
pub mod Config
pub mod Event
pub mod Messages
pub mod Chats
pub mod Receipts
pub mod Dispatch
pub mod Conversion
mod Tests
