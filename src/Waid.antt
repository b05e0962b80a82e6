-- ===== src/Waid.antt =====
-- Package waid (pkg/waid): identifiers of users, chats, messages and media.
pub mod Jid
pub mod Id
pub mod Decimal
pub mod Binary
pub mod MediaId
pub mod DbMeta
pub mod Sample
mod Tests
