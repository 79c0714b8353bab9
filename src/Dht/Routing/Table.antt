-- ===== src/Dht/Routing/Table.antt =====
-- internal/dht/routing/table.go. The mutex makes a method one step; log lines are left out, and
-- the clock is an argument.
pub mod Nodes
pub mod Laws
pub mod Closest
pub mod ClosestLaws
pub mod Failures
pub mod Run
pub mod Stale
pub mod Target
use Prim.Native.Nat.{bit_xor}
use jelly_torrent.Base.{
  ℕ, zero, suc, ◌+◌, ◌-◌, ◌*◌, ◌/◌, ◌%◌, ◌^◌, ◌≡◌, Bool, true, false, not, ◌||◌, ◌&&◌, Option, none,
  some, List, [], ◌∷◌, ◌++◌, Bytes, bytes_eq, All, length, get_elem?, get_or, set, take, replicate,
  ltb, leb, ◌==◌, if◌then◌else◌,
}
use jelly_torrent.Dht.NodeId.{NodeId, IsId, distance, prefix_len, less}
use jelly_torrent.Dht.Routing.{Node, max_failures}
use jelly_torrent.Dht.Routing.Bucket.{Bucket, has_id}
use jelly_torrent.Dht.Routing.Bucket

abbrev pub num_buckets : ℕ
num_buckets = 160

pub record RoutingTable : Type 0 where
  pub self_id : NodeId
  pub buckets : List Bucket

unfoldable pub new_routing_table : NodeId → RoutingTable
new_routing_table id = record { self_id = id; buckets = replicate num_buckets [] }

abbrev pub bucket_at : RoutingTable → ℕ → Bucket
bucket_at rt i = get_or rt.buckets i []

abbrev pub with_bucket : RoutingTable → ℕ → Bucket → RoutingTable
with_bucket rt i b = record rt { buckets = set rt.buckets i b }

unfoldable pub insert : Node → RoutingTable → (Option Node × Bool) × RoutingTable
unfolding prefix_len
insert node rt =
    let i = prefix_len rt.self_id node.id in
    if leb num_buckets i
    then ((none, false), rt)
    else let (answer, b) = Bucket.insert node (bucket_at rt i) in (answer, with_bucket rt i b)

unfoldable pub remove : NodeId → RoutingTable → Bool × RoutingTable
unfolding prefix_len
remove id rt =
    let i = prefix_len rt.self_id id in
    if leb num_buckets i
    then (false, rt)
    else let (found, b) = Bucket.remove id (bucket_at rt i) in (found, with_bucket rt i b)

-- The loops of `RecordFailure` and `RecordSuccess` write to the first node with the identifier.
unfoldable pub update_first : NodeId → (Node → Node) → List Node → Option (Node × List Node)
update_first id f [] = none
update_first id f (n ∷ nodes) =
    let rest = update_first id f nodes in
    if has_id id n
    then some (f n, f n ∷ nodes)
    else elim rest [ none ↦ none | some (m, more) ↦ some (m, n ∷ more) ]

abbrev pub fail : Node → Node
fail n = record n { fail_count = suc n.fail_count }

abbrev pub succeed : ℕ → Node → Node
succeed now n = record n { fail_count = 0; last_seen = now }

unfoldable pub count_failure : NodeId → Bucket → Bool × Bucket
unfolding update_first Bucket.remove
count_failure id b = elim (update_first id fail b) [
  | none ↦ (false, b)
  | some (n, nodes) ↦
      if leb max_failures n.fail_count then (true, (Bucket.remove id nodes).1) else (false, nodes)
]

unfoldable pub record_failure : NodeId → RoutingTable → Bool × RoutingTable
unfolding prefix_len count_failure
record_failure id rt =
    let i = prefix_len rt.self_id id in
    if leb num_buckets i
    then (false, rt)
    else let (evicted, b) = count_failure id (bucket_at rt i) in (evicted, with_bucket rt i b)

unfoldable pub note_success : NodeId → ℕ → Bucket → Bucket
unfolding update_first
note_success id now b = elim (update_first id (succeed now) b) [
  | none ↦ b
  | some (n, nodes) ↦ nodes
]

unfoldable pub record_success : NodeId → ℕ → RoutingTable → RoutingTable
unfolding prefix_len note_success
record_success id now rt =
    let i = prefix_len rt.self_id id in
    if leb num_buckets i then rt else with_bucket rt i (note_success id now (bucket_at rt i))

-- Every node of the table, bucket by bucket.
unfoldable pub all_nodes : List Bucket → List Node
all_nodes [] = []
all_nodes (b ∷ bs) = b ++ all_nodes bs

unfoldable pub snapshot : RoutingTable → List Node
unfolding all_nodes
snapshot rt = all_nodes rt.buckets

unfoldable pub count_nodes : List Bucket → ℕ
count_nodes [] = 0
count_nodes (b ∷ bs) = length b + count_nodes bs

unfoldable pub num_nodes : RoutingTable → ℕ
unfolding count_nodes
num_nodes rt = count_nodes rt.buckets

-- `flip_from byte_idx bit_idx self rnd`: the bytes before are kept, the bit is flipped, and the
-- bytes after are randomized.
unfoldable pub randomize : NodeId → Bytes → NodeId
randomize [] rnd = []
randomize (b ∷ id) [] = b ∷ id
randomize (b ∷ id) (r ∷ rnd) = bit_xor b r ∷ randomize id rnd

unfoldable pub flip_from : ℕ → ℕ → NodeId → Bytes → NodeId
unfolding randomize
flip_from byte_idx bit_idx [] rnd = []
flip_from zero bit_idx (b ∷ id) rnd = bit_xor b (2 ^ bit_idx) ∷ randomize id rnd
flip_from (suc byte_idx) bit_idx (b ∷ id) rnd = b ∷ flip_from byte_idx bit_idx id rnd

-- `rnd` is the random bytes that follow the target byte; a bucket past the last panics in Go.
unfoldable pub target_for_bucket : RoutingTable → ℕ → Bytes → NodeId
unfolding flip_from
target_for_bucket rt bucket rnd = flip_from (bucket / 8) (7 - bucket % 8) rt.self_id rnd
