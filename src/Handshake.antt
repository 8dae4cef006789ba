-- ===== src/Handshake.antt =====
-- handshake/: the opening handshake on the fields of the HTTP messages. handshake/doc.go holds a
-- comment only.
pub mod Types
pub mod Extension
pub mod Negotiation
mod Tests
