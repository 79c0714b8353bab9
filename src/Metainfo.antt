-- ===== src/Metainfo.antt =====
-- internal/metainfo: the info dictionary of a torrent, and the pieces of it that a peer sends.
pub mod Info
pub mod Hashes
pub mod Torrent
pub mod Magnet
