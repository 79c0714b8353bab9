-- ===== src/Downloader.antt =====
-- internal/downloader.
pub mod Selector
pub mod PieceManager
pub mod Uploads
pub mod Worker
pub mod PexManager
