-- ===== src/Cmd.antt =====
-- cmd/wani-client: the two commands of the client.
pub mod Args
pub mod Pairing
pub mod Progress
pub mod Send
pub mod Receive
pub mod Session
