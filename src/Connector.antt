-- ===== src/Connector.antt =====
-- Package connector (pkg/connector): the bridge's client for one WhatsApp login.
pub mod Client
pub mod Ids
pub mod Reroute
pub mod WaMessage
pub mod MessageType
pub mod PhonePing
pub mod MediaEditCache
pub mod Conversation
pub mod Login
pub mod MediaRequest
pub mod ChatInfo
pub mod UserInfo
pub mod Session
pub mod DirectMedia
pub mod Receive
pub mod Send
pub mod Sample
mod Tests
