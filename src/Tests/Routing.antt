-- ===== src/Tests/Routing.antt =====
-- internal/dht: runs at concrete inputs.
use jelly_torrent.Tests.Exchange.{local_peer}
use jelly_torrent.Base.{ℕ, zero, suc, ◌≡◌, ◌<◌, refl, false, [], ◌∷◌, arith, length, replicate, min}
use jelly_torrent.Peer.BitField.{AreBytes}
use jelly_torrent.Dht.NodeId.{NodeId, IsId, prefix_len}
use jelly_torrent.Dht.Routing.{Node}
use jelly_torrent.Dht.Routing.Bucket.Laws.{
  Inserted, insert-Inserted, insert-IsValid, remove-IsValid,
}
use jelly_torrent.Dht.Routing.Bucket.Laws
use jelly_torrent.Dht.Routing.Table.{
  RoutingTable, new_routing_table, insert, record_failure, num_nodes, target_for_bucket,
}
use jelly_torrent.Dht.Routing.Table.Laws.{IsTable}
use jelly_torrent.Dht.Routing.Table.Run.{start, next, inserts, fails, TableReach-IsTable}
use jelly_torrent.Dht.Routing.Table.Target.{prefix_len-target_for_bucket}
use jelly_torrent.Dht.Routing.Table.Closest.{find_closest}
use jelly_torrent.Dht.Routing.Table.ClosestLaws.{length-find_closest}

abbrev id_of : ℕ → NodeId
id_of b = b ∷ replicate 19 0

zeros-AreBytes : (n : ℕ) → AreBytes (replicate n 0)
zeros-AreBytes zero = tt
zeros-AreBytes (suc n) = (omega arith, zeros-AreBytes n)

id_of-IsId : (b : ℕ) → b < 256 → IsId (id_of b)
id_of-IsId b h = (refl, (h, zeros-AreBytes 19))

abbrev node_of : ℕ → Node
node_of b = record {
  id = id_of b;
  addr = local_peer;
  last_seen = 0;
  compliant = false;
  fail_count = 4;
}

one_node-IsValid : Laws.IsValid (node_of 1 ∷ [])
one_node-IsValid = record { bounded = omega arith; unique = (tt, tt) }

abbrev self_table : RoutingTable
self_table = new_routing_table (id_of 0)

abbrev one_table : RoutingTable
one_table = (insert (node_of 1) self_table).1

prefix_len-target_for_bucket_example :
    prefix_len self_table.self_id (target_for_bucket self_table 13 (replicate 20 0xff)) ≡ 13
unfolding new_routing_table
prefix_len-target_for_bucket_example =
    prefix_len-target_for_bucket self_table 13 (replicate 20 0xff) (id_of-IsId 0 (omega arith))
      (omega arith)

TableReach-IsTable_example : IsTable (record_failure (id_of 1) one_table).1
TableReach-IsTable_example =
    TableReach-IsTable (id_of 0) (record_failure (id_of 1) one_table).1 (id_of-IsId 0 (omega arith))
      (next (next start (inserts (node_of 1) (id_of-IsId 1 (omega arith)))) (fails (id_of 1)))

length-find_closest_example :
    length (find_closest (id_of 5) 8 one_table) ≡ min 8 (num_nodes one_table)
length-find_closest_example = length-find_closest (id_of 5) 8 one_table (
    TableReach-IsTable (id_of 0) one_table (id_of-IsId 0 (omega arith))
      (next start (inserts (node_of 1) (id_of-IsId 1 (omega arith)))))
