-- ===== src/Seeder.antt =====
-- internal/seeder: the choker and the connections that are served.
pub mod SeedPeer
pub mod Choker
pub mod Connections
