-- ===== src/Connector/Send.antt =====
-- What the bridge does with events from Matrix: pkg/connector/handlematrix.go.
pub mod Steps
pub mod Messages
pub mod ReadReceipts
pub mod Avatar
pub mod Requests
pub mod Rooms
pub mod Chats
mod Tests
