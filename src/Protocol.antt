-- ===== src/Protocol.antt =====
-- internal/protocol: the wire messages (messages.go), the transfer manifest (protocol.go) and the
-- pairing codes (codes.go).
pub mod Message
pub mod Words
pub mod Codes
mod Tests
