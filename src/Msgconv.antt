-- ===== src/Msgconv.antt =====
-- pkg/msgconv: the conversion of texts.
pub mod Text
pub mod Link
pub mod Line
pub mod Html
pub mod Keys
pub mod Code
