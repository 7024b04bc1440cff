-- ===== src/Nhis.antt =====
-- Non-human identities: api/src/nhis.
pub mod Scopes
pub mod Records
pub mod Exchange
