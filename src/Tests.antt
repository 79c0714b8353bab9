-- ===== src/Tests.antt =====
-- Runs of the definitions at concrete inputs, and uses of the theorems there.
mod Codec
mod Disk
mod Download
mod Exchange
mod Limits
mod Routing
mod Torrents
mod Wire
mod Metadata
mod Workers
mod Seeding
mod Queries
