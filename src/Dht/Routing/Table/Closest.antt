-- ===== src/Dht/Routing/Table/Closest.antt =====
-- internal/dht/routing/table.go: `FindClosest`, the nodes that answer find_node.
use jelly_torrent.Base.{
  ℕ, zero, suc, ◌||◌, Bool, List, [], ◌∷◌, ◌++◌, length, get_or, take, ltb, leb, if◌then◌else◌,
}
use jelly_torrent.Dht.NodeId.{NodeId, distance, prefix_len, less}
use jelly_torrent.Dht.Routing.{Node}
use jelly_torrent.Dht.Routing.Bucket.{Bucket}
use jelly_torrent.Dht.Routing.Table.{RoutingTable, num_buckets, bucket_at}

abbrev pub closer : NodeId → Node → Node → Bool
closer target a b = less (distance target a.id) (distance target b.id)

-- `sort.Slice`, by the distance to the target.
unfoldable pub insert_node : NodeId → Node → List Node → List Node
insert_node target n [] = n ∷ []
insert_node target n (m ∷ nodes) =
    let rest = insert_node target n nodes in if closer target m n then m ∷ rest else n ∷ m ∷ nodes

unfoldable pub sort_nodes : NodeId → List Node → List Node
unfolding insert_node
sort_nodes target [] = []
sort_nodes target (n ∷ nodes) = insert_node target n (sort_nodes target nodes)

-- `l` is one more than the code's, so that 0 is its end.
unfoldable pub take_left : ℕ → List Bucket → List Node → ℕ × List Node
take_left zero bs nodes = (zero, nodes)
take_left (suc l) bs nodes = (l, nodes ++ get_or bs l [])

unfoldable pub take_right : ℕ → List Bucket → List Node → ℕ × List Node
take_right r bs nodes = if ltb r num_buckets then (suc r, nodes ++ get_or bs r []) else (r, nodes)

-- The loop that expands outward. A round takes a bucket, so as many rounds as buckets are enough.
unfoldable pub widen : ℕ → ℕ → List Bucket → ℕ → ℕ → List Node → List Node
unfolding take_left take_right
widen zero count bs l r nodes = nodes
widen (suc fuel) count bs l r nodes =
    let (l', more) = take_left l bs nodes in
    let (r', most) = take_right r bs more in
    let rest = widen fuel count bs l' r' most in
    if ltb (length nodes) count
    then (if ltb 0 l || ltb r num_buckets then rest else nodes)
    else nodes

abbrev pub start_at : RoutingTable → NodeId → ℕ
start_at rt target = let i = prefix_len rt.self_id target in if leb num_buckets i then 159 else i

unfoldable pub find_closest : NodeId → ℕ → RoutingTable → List Node
unfolding widen sort_nodes prefix_len
find_closest target count rt =
    let i = start_at rt target in
    take count (sort_nodes target (widen num_buckets count rt.buckets i (suc i) (bucket_at rt i)))
