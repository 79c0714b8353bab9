-- ===== src/Dht/Routing/Bucket.antt =====
-- internal/dht/routing/bucket.go. A bucket is its nodes, the oldest first.
pub mod Laws
use jelly_torrent.Base.{
  ℕ, Bool, true, false, Option, none, some, List, [], ◌∷◌, ◌++◌, bytes_eq, length, ◌==◌,
  if◌then◌else◌,
}
use jelly_torrent.Dht.NodeId.{NodeId}
use jelly_torrent.Dht.Routing.{Node}

abbrev pub Bucket : Type 0
Bucket = List Node

abbrev pub capacity : ℕ
capacity = 8

unfoldable pub new_bucket : Bucket
new_bucket = []

-- The loops that look for the first node with a property: the nodes without it, when there is one.
unfoldable pub remove_first : (Node → Bool) → List Node → Option (List Node)
remove_first p [] = none
remove_first p (n ∷ nodes) =
    let rest = remove_first p nodes in
    if p n then some nodes else elim rest [ none ↦ none | some left ↦ some (n ∷ left) ]

abbrev pub has_id : NodeId → Node → Bool
has_id id n = bytes_eq n.id id

abbrev pub is_loose : Node → Bool
is_loose n = if n.compliant then false else true

unfoldable pub oldest : Bucket → Option Node
oldest [] = none
oldest (n ∷ nodes) = some n

-- The answer of a full bucket that takes no node: its oldest one.
unfoldable pub reject : Bucket → (Option Node × Bool) × Bucket
unfolding oldest
reject b = ((oldest b, false), b)

abbrev pub at_tail : List Node → Node → (Option Node × Bool) × Bucket
at_tail left node = ((none, true), left ++ (node ∷ []))

unfoldable pub evict : Node → Bucket → (Option Node × Bool) × Bucket
unfolding remove_first reject
evict node b =
    let loose = remove_first is_loose b in
    if node.compliant
    then elim loose [ some left ↦ at_tail left node | none ↦ reject b ]
    else reject b

unfoldable pub insert : Node → Bucket → (Option Node × Bool) × Bucket
unfolding remove_first evict
insert node b = elim (remove_first (has_id node.id) b) [
  | some left ↦ at_tail left node
  | none ↦ if length b == capacity then evict node b else at_tail b node
]

unfoldable pub remove : NodeId → Bucket → Bool × Bucket
unfolding remove_first
remove id b = elim (remove_first (has_id id) b) [ some left ↦ (true, left) | none ↦ (false, b) ]
