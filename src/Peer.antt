-- ===== src/Peer.antt =====
-- internal/peer: the bitfield, peer exchange, the wire protocol, downloads, handshakes and metadata.
pub mod BitField
pub mod Addr
pub mod Pex
pub mod Wire
pub mod Incoming
pub mod Download
pub mod Handshake
pub mod Metadata
