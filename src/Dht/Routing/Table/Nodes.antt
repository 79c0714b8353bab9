-- ===== src/Dht/Routing/Table/Nodes.antt =====
-- internal/dht/routing: what holds for every node of a table holds for those that it gives.
use jelly_torrent.Base.{
  ℕ, zero, suc, ◌||◌, inl, inr, Bool, true, false, List, [], ◌∷◌, All, All-append, length, get_or,
  set, take, ltb, leb, if◌then◌else◌, Bool-cases,
}
use jelly_torrent.Dht.NodeId.{NodeId, prefix_len}
use jelly_torrent.Dht.Routing.{Node}
use jelly_torrent.Dht.Routing.Bucket
use jelly_torrent.Dht.Routing.Bucket.{Bucket}
use jelly_torrent.Dht.Routing.Bucket.Laws.{insert-Inserted}
use jelly_torrent.Dht.Routing.Table.Laws.{Inserted-All}
use jelly_torrent.Dht.Routing.Table.{RoutingTable, num_buckets, bucket_at, insert}
use jelly_torrent.Dht.Routing.Table.Closest.{
  closer, insert_node, sort_nodes, take_left, take_right, widen, start_at, find_closest,
}

module _ (P : Node → Type 0) where
  abbrev pub AllNodes : List Bucket → Type 0
  AllNodes bs = All (λ b. All P b) bs

  get_or-AllNodes : (bs : List Bucket) (i : ℕ) → AllNodes bs → All P (get_or bs i [])
  get_or-AllNodes [] i h = tt
  get_or-AllNodes (b ∷ bs) zero (h, hs) = h
  get_or-AllNodes (b ∷ bs) (suc i) (h, hs) = get_or-AllNodes bs i hs

  set-AllNodes :
      (bs : List Bucket) (i : ℕ) (b : Bucket) → AllNodes bs → All P b → AllNodes (set bs i b)
  set-AllNodes [] i b h k = tt
  set-AllNodes (c ∷ bs) zero b (h, hs) k = (k, hs)
  set-AllNodes (c ∷ bs) (suc i) b (h, hs) k = (h, set-AllNodes bs i b hs k)

  take-All : (n : ℕ) (ns : List Node) → All P ns → All P (take n ns)
  take-All zero ns h = tt
  take-All (suc n) [] h = tt
  take-All (suc n) (m ∷ ns) (h, hs) = (h, take-All n ns hs)

  if-All : (b : Bool) (xs ys : List Node) → All P xs → All P ys → All P (if b then xs else ys)
  if-All true xs ys h k = h
  if-All false xs ys h k = k

  insert_node-All :
      (target : NodeId) (n : Node) (ns : List Node)
      → P n
      → All P ns
      → All P (insert_node target n ns)
  unfolding insert_node
  insert_node-All target n [] p h = (p, tt)
  insert_node-All target n (m ∷ ns) p (h, hs) =
      if-All (closer target m n) (m ∷ insert_node target n ns) (n ∷ m ∷ ns)
        (h, insert_node-All target n ns p hs) (p, (h, hs))

  sort_nodes-All : (target : NodeId) (ns : List Node) → All P ns → All P (sort_nodes target ns)
  unfolding sort_nodes
  sort_nodes-All target [] h = tt
  sort_nodes-All target (n ∷ ns) (h, hs) =
      insert_node-All target n (sort_nodes target ns) h (sort_nodes-All target ns hs)

  take_left-All :
      (l : ℕ) (bs : List Bucket) (ns : List Node)
      → AllNodes bs
      → All P ns
      → All P (take_left l bs ns).1
  unfolding take_left
  take_left-All zero bs ns h k = k
  take_left-All (suc l) bs ns h k = All-append P ns (get_or bs l []) k (get_or-AllNodes bs l h)

  take_right-All :
      (r : ℕ) (bs : List Bucket) (ns : List Node)
      → AllNodes bs
      → All P ns
      → All P (take_right r bs ns).1
  unfolding take_right
  take_right-All r bs ns h k = elim (Bool-cases (ltb r num_buckets)) [
    | inl e ↦ rw e (All-append P ns (get_or bs r []) k (get_or-AllNodes bs r h))
    | inr e ↦ rw e k
  ]

  widen-All :
      (fuel count : ℕ) (bs : List Bucket) (l r : ℕ) (ns : List Node)
      → AllNodes bs
      → All P ns
      → All P (widen fuel count bs l r ns)
  unfolding widen
  widen-All zero count bs l r ns h k = k
  widen-All (suc fuel) count bs l r ns h k =
      let more = (take_left l bs ns).1 in
      let m = take_left-All l bs ns h k in
      let rest =
        widen fuel count bs (take_left l bs ns).0 (take_right r bs more).0
          (take_right r bs more).1 in
      let w =
        widen-All fuel count bs (take_left l bs ns).0 (take_right r bs more).0
          (take_right r bs more).1 h (take_right-All r bs more h m) in
      if-All (ltb (length ns) count) (if ltb 0 l || ltb r num_buckets then rest else ns) ns
        (if-All (ltb 0 l || ltb r num_buckets) rest ns w k) k

  pub find_closest-All :
      (target : NodeId) (count : ℕ) (rt : RoutingTable)
      → AllNodes rt.buckets
      → All P (find_closest target count rt)
  unfolding find_closest
  find_closest-All target count rt h =
      let i = start_at rt target in
      take-All count _ (
        sort_nodes-All target _ (
          widen-All num_buckets count rt.buckets i (suc i) (bucket_at rt i) h
            (get_or-AllNodes rt.buckets i h)))

  pub insert-AllNodes :
      (node : Node) (rt : RoutingTable)
      → P node
      → AllNodes rt.buckets
      → AllNodes (insert node rt).1.buckets
  unfolding insert
  insert-AllNodes node rt p h =
      let i = prefix_len rt.self_id node.id in
      elim (Bool-cases (leb num_buckets i)) [
        | inl e ↦ rw (e, insert) h
        | inr e ↦
            rw (e, insert)
              (set-AllNodes rt.buckets i (Bucket.insert node (bucket_at rt i)).1 h (
                Inserted-All P (insert-Inserted node (bucket_at rt i)) p
                  (get_or-AllNodes rt.buckets i h)))
      ]
