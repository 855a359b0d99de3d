-- ===== src/Client.antt =====
-- internal/client: the client's side of the signaling protocol, the connection to the peer and the
-- transfer of files.
pub mod Signaling
pub mod Paths
pub mod Stun
pub mod Transfer
pub mod Offer
pub mod Manifest
pub mod Whole
pub mod Quic
pub mod Ice
pub mod Tests
