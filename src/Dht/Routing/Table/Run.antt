-- ===== src/Dht/Routing/Table/Run.antt =====
-- internal/dht/routing/table.go: every sequence of calls from an empty table on.
use jelly_torrent.Base.{ℕ}
use jelly_torrent.Dht.NodeId.{NodeId, IsId}
use jelly_torrent.Dht.Routing.{Node}
use jelly_torrent.Dht.Routing.Table.{
  RoutingTable, new_routing_table, insert, remove, record_failure, record_success,
}
use jelly_torrent.Dht.Routing.Table.Laws.{
  IsTable, new_routing_table-IsTable, insert-IsTable, remove-IsTable,
}
use jelly_torrent.Dht.Routing.Table.Failures.{record_failure-IsTable, record_success-IsTable}

-- One call of a method that writes to the table.
pub data TableStep : RoutingTable → RoutingTable → Type 0 where
  inserts : {rt : RoutingTable} (node : Node) → IsId node.id → TableStep rt (insert node rt).1
  removes : {rt : RoutingTable} (id : NodeId) → TableStep rt (remove id rt).1
  fails : {rt : RoutingTable} (id : NodeId) → TableStep rt (record_failure id rt).1
  succeeds : {rt : RoutingTable} (id : NodeId) (now : ℕ) → TableStep rt (record_success id now rt)

pub data TableReach (rt : RoutingTable) : RoutingTable → Type 0 where
  start : TableReach rt rt
  next : {rt1 rt2 : RoutingTable} → TableReach rt rt1 → TableStep rt1 rt2 → TableReach rt rt2

TableStep-IsTable : {rt rt' : RoutingTable} → TableStep rt rt' → IsTable rt → IsTable rt'
TableStep-IsTable (inserts node h) v = insert-IsTable node _ h v
TableStep-IsTable (removes id) v = remove-IsTable id _ v
TableStep-IsTable (fails id) v = record_failure-IsTable id _ v
TableStep-IsTable (succeeds id now) v = record_success-IsTable id now _ v

TableReach-keeps : {rt rt' : RoutingTable} → IsTable rt → TableReach rt rt' → IsTable rt'
TableReach-keeps v start = v
TableReach-keeps v (next r s) = TableStep-IsTable s (TableReach-keeps v r)

-- In any table that calls reach from an empty one, there are 160 buckets, each holds at most eight nodes with distinct identifiers, and each node stands in the bucket of the prefix that it shares with the table's own identifier.
pub TableReach-IsTable :
    (id : NodeId) (rt : RoutingTable) → IsId id → TableReach (new_routing_table id) rt → IsTable rt
TableReach-IsTable id rt h r = TableReach-keeps (new_routing_table-IsTable id h) r
