-- ===== src/Dht/Routing.antt =====
-- internal/dht/routing: the nodes of the routing table, its buckets and the table.
pub mod Bucket
pub mod Table
use jelly_torrent.Base.{ℕ, Bool, Bytes}
use jelly_torrent.Peer.Addr.{AddrPort}
use jelly_torrent.Dht.NodeId.{NodeId}

-- A node is a value here: the table replaces a node where the code writes to the shared one.
-- Times are numbers.
pub record Node : Type 0 where
  pub id : NodeId
  pub addr : AddrPort
  pub last_seen : ℕ
  pub compliant : Bool
  pub fail_count : ℕ

abbrev pub max_failures : ℕ
max_failures = 5
