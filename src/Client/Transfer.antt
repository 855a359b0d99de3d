-- ===== src/Client/Transfer.antt =====
-- internal/client/transfer.go: sending and receiving files.
pub mod Receive
pub mod Verified
pub mod Send
pub mod Answered
pub mod Streams
pub mod Delivery
pub mod Recording
pub mod Resume
pub mod Skipping
pub mod Resuming
