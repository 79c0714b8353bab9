-- ===== src/Dht/Handlers/Kept.antt =====
-- internal/dht/dht.go: a sender goes to the table.
use jelly_torrent.Base.{◌≡◌, refl, Bool, true, false, Option, none, some, if◌then◌else◌}
use jelly_torrent.Dht.Routing.{Node}
use jelly_torrent.Dht.Routing.Table.{RoutingTable}
use jelly_torrent.Dht.Routing.Table
use jelly_torrent.Dht.Routing.Table.Nodes.{insert-AllNodes}
use jelly_torrent.Dht.Handlers.{Dht, note_oldest, insert_node}
use jelly_torrent.Dht.Handlers.Stored.{HoldsV4, IsNodeV4}

note_oldest-kept :
    (node : Node) (answer : Option Node × Bool) (d : Dht)
    → HoldsV4 d
    → HoldsV4 (note_oldest node answer d)
      × ((note_oldest node answer d).tokens ≡ d.tokens)
      × ((note_oldest node answer d).sent ≡ d.sent)
unfolding note_oldest
note_oldest-kept node (some oldest, false) d h =
    (record { nodes = h.nodes; stored = h.stored }, refl, refl)
note_oldest-kept node (some oldest, true) d h = (h, refl, refl)
note_oldest-kept node (none, b) d h = (h, refl, refl)

abbrev pub Kept : Dht → Dht → Type 0
Kept d d' = HoldsV4 d' × (d'.tokens ≡ d.tokens) × (d'.sent ≡ d.sent)

pub insert_node-Kept :
    (node : Node) (d : Dht) → IsNodeV4 node → HoldsV4 d → Kept d (insert_node node d)
unfolding insert_node
insert_node-Kept node d four h =
    note_oldest-kept node (Table.insert node d.table).0
      (record d { table = (Table.insert node d.table).1 })
      (record { nodes = insert-AllNodes IsNodeV4 node d.table four h.nodes; stored = h.stored })

pub if-Kept : (b : Bool) (d x y : Dht) → Kept d x → Kept d y → Kept d (if b then x else y)
if-Kept true d x y h k = h
if-Kept false d x y h k = k
