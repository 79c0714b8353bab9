-- ===== src/Dht/Routing/Table/ClosestLaws.antt =====
-- internal/dht/routing/table.go: how many nodes `FindClosest` gives, and in which order.
use jelly_torrent.Base.{
  ℕ, zero, suc, ◌+◌, ◌-◌, ◌≤◌, ◌<◌, ◌≡◌, ◌||◌, min, inl, inr, refl, true, false, List, [], ◌∷◌,
  arith, length, length-append, length-take, get_or, take, drop, ltb, Bool-cases,
}
use jelly_torrent.Dht.NodeId.{NodeId, distance, less}
use jelly_torrent.Dht.Routing.{Node}
use jelly_torrent.Dht.Routing.Bucket.{Bucket}
use jelly_torrent.Dht.Routing.Table.{RoutingTable, num_buckets, bucket_at, count_nodes, num_nodes}
use jelly_torrent.Dht.Routing.Table.Laws.{IsTable}
use jelly_torrent.Dht.Routing.Table.Closest.{
  closer, insert_node, sort_nodes, take_left, take_right, widen, start_at, find_closest,
}

-- The nodes that the loop has, with those of the buckets left of `l` and from `r` on, are all.
abbrev Accounts : List Bucket → ℕ → ℕ → List Node → Type 0
Accounts bs l r nodes =
    length nodes + count_nodes (take l bs) + count_nodes (drop r bs) ≡ count_nodes bs

count-take :
    (bs : List Bucket) (l : ℕ)
    → count_nodes (take (suc l) bs) ≡ count_nodes (take l bs) + length (get_or bs l [])
unfolding count_nodes
count-take [] zero = refl
count-take [] (suc l) = refl
count-take (b ∷ bs) zero = omega arith
count-take (b ∷ bs) (suc l) = omega (arith, count-take bs l)

count-drop :
    (bs : List Bucket) (r : ℕ)
    → count_nodes (drop r bs) ≡ length (get_or bs r []) + count_nodes (drop (suc r) bs)
unfolding count_nodes
count-drop [] zero = refl
count-drop [] (suc r) = refl
count-drop (b ∷ bs) zero = refl
count-drop (b ∷ bs) (suc r) = count-drop bs r

count-split :
    (bs : List Bucket) (i : ℕ) → count_nodes (take i bs) + count_nodes (drop i bs) ≡ count_nodes bs
unfolding count_nodes
count-split [] zero = refl
count-split [] (suc i) = refl
count-split (b ∷ bs) zero = omega arith
count-split (b ∷ bs) (suc i) = omega (arith, count-split bs i)

count-past : (bs : List Bucket) (r : ℕ) → length bs ≤ r → count_nodes (drop r bs) ≡ 0
unfolding count_nodes
count-past [] zero h = refl
count-past [] (suc r) h = refl
count-past (b ∷ bs) zero h = absurd (omega arith)
count-past (b ∷ bs) (suc r) h = count-past bs r (omega arith)

take_left-Accounts :
    (bs : List Bucket) (l r : ℕ) (nodes : List Node)
    → Accounts bs l r nodes
    → Accounts bs (take_left l bs nodes).0 r (take_left l bs nodes).1
unfolding take_left
take_left-Accounts bs zero r nodes h = h
take_left-Accounts bs (suc l) r nodes h =
    omega (arith, count-take bs l, length-append nodes (get_or bs l []))

take_right-Accounts :
    (bs : List Bucket) (l r : ℕ) (nodes : List Node)
    → Accounts bs l r nodes
    → Accounts bs l (take_right r bs nodes).0 (take_right r bs nodes).1
unfolding take_right
take_right-Accounts bs l r nodes h = elim (Bool-cases (ltb r num_buckets)) [
  | inl e ↦ rw e (omega (arith, count-drop bs r, length-append nodes (get_or bs r [])))
  | inr e ↦ rw e h
]

-- How many buckets are left.
abbrev left_over : ℕ → ℕ → ℕ
left_over l r = l + (num_buckets - r)

round-left_over :
    (bs : List Bucket) (l r : ℕ) (nodes more : List Node)
    → (ltb 0 l || ltb r num_buckets) ≡ true
    → left_over (take_left l bs nodes).0 (take_right r bs more).0 < left_over l r
unfolding take_left take_right
round-left_over bs zero r nodes more h = ground arith
round-left_over bs (suc l) r nodes more h = ground arith

-- Enough nodes, or all there are.
abbrev Enough : ℕ → List Bucket → List Node → Type 0
Enough count bs nodes =
    (length nodes ≤ count_nodes bs) × (min count (count_nodes bs) ≤ length nodes)

all-Enough :
    (count : ℕ) (bs : List Bucket) (l r : ℕ) (nodes : List Node)
    → length bs ≡ num_buckets
    → Accounts bs l r nodes
    → l ≡ 0
    → num_buckets ≤ r
    → Enough count bs nodes
unfolding count_nodes
all-Enough count bs zero r nodes size h e le =
    let past = count-past bs r (omega arith) in (omega arith, omega arith)
all-Enough count bs (suc l) r nodes size h e le = absurd (omega arith)

widen-Enough :
    (fuel count : ℕ) (bs : List Bucket) (l r : ℕ) (nodes : List Node)
    → length bs ≡ num_buckets
    → left_over l r ≤ fuel
    → Accounts bs l r nodes
    → Enough count bs (widen fuel count bs l r nodes)
unfolding widen
widen-Enough zero count bs l r nodes size fit h =
    all-Enough count bs l r nodes size h (omega arith) (omega arith)
widen-Enough (suc fuel) count bs l r nodes size fit h =
    elim (Bool-cases (ltb (length nodes) count)) [
      | inr e ↦ rw (e, widen) (omega arith, ground arith)
      | inl e ↦ elim (Bool-cases (ltb 0 l || ltb r num_buckets)) [
        | inr e' ↦
            rw (e, e', widen) (all-Enough count bs l r nodes size h (ground arith) (ground arith))
        | inl e' ↦
            let (l', more) = take_left l bs nodes in
            rw (e, e', widen)
              (widen-Enough fuel count bs _ _ _ size
                (omega (arith, round-left_over bs l r nodes more e'))
                (take_right-Accounts bs _ r _ (take_left-Accounts bs l r nodes h)))
      ]
    ]

length-insert_node :
    (target : NodeId) (n : Node) (nodes : List Node)
    → length (insert_node target n nodes) ≡ suc (length nodes)
unfolding insert_node
length-insert_node target n [] = refl
length-insert_node target n (m ∷ nodes) = ground (arith, length-insert_node target n nodes)

length-sort_nodes :
    (target : NodeId) (nodes : List Node) → length (sort_nodes target nodes) ≡ length nodes
unfolding sort_nodes
length-sort_nodes target [] = refl
length-sort_nodes target (n ∷ nodes) =
    omega
      (arith, length-insert_node target n (sort_nodes target nodes), length-sort_nodes target nodes)

start-Accounts : (bs : List Bucket) (i : ℕ) → Accounts bs i (suc i) (get_or bs i [])
start-Accounts bs i = omega (arith, count-split bs i, count-drop bs i)

-- `FindClosest` gives as many nodes as were asked for, or all of the table when it has fewer.
pub length-find_closest :
    (target : NodeId) (count : ℕ) (rt : RoutingTable)
    → IsTable rt
    → length (find_closest target count rt) ≡ min count (num_nodes rt)
unfolding find_closest num_nodes
length-find_closest target count rt v =
    let i = start_at rt target in
    let found = widen num_buckets count rt.buckets i (suc i) (bucket_at rt i) in
    let fit : i ≤ 159 = ground arith in
    let (le, ge) =
      widen-Enough num_buckets count rt.buckets i (suc i) (bucket_at rt i) v.size (omega arith)
        (start-Accounts rt.buckets i) in
    omega (arith, length-take count (sort_nodes target found), length-sort_nodes target found)

-- No node is closer to the target than the one before it.
abbrev pub Ascending : NodeId → List Node → Type 0
Ascending target [] = Unit
Ascending target (n ∷ []) = Unit
Ascending target (n ∷ m ∷ nodes) = (closer target m n ≡ false) × Ascending target (m ∷ nodes)

less-asym : (a b : NodeId) → less a b ≡ true → less b a ≡ false
unfolding less
less-asym [] b h = cc
less-asym (x ∷ a) [] h = cc
less-asym (x ∷ a) (y ∷ b) h = ground (arith, less-asym a b)

insert_node-Ascending :
    (target : NodeId) (n : Node) (nodes : List Node)
    → Ascending target nodes
    → Ascending target (insert_node target n nodes)
unfolding insert_node
insert_node-Ascending target n [] h = tt
insert_node-Ascending target n (m ∷ []) h = elim (Bool-cases (closer target m n)) [
  | inl e ↦ rw e (less-asym _ _ e, tt)
  | inr e ↦ rw e (e, tt)
]
insert_node-Ascending target n (m ∷ k ∷ nodes) (le, h) = ground (
  arith,
  insert_node-Ascending target n (k ∷ nodes) h,
  less-asym (distance target m.id) (distance target n.id),
)

sort_nodes-Ascending :
    (target : NodeId) (nodes : List Node) → Ascending target (sort_nodes target nodes)
unfolding sort_nodes
sort_nodes-Ascending target [] = tt
sort_nodes-Ascending target (n ∷ nodes) =
    insert_node-Ascending target n (sort_nodes target nodes) (sort_nodes-Ascending target nodes)

take-Ascending :
    (target : NodeId) (k : ℕ) (nodes : List Node)
    → Ascending target nodes
    → Ascending target (take k nodes)
take-Ascending target zero nodes h = tt
take-Ascending target (suc k) [] h = tt
take-Ascending target (suc zero) (n ∷ nodes) h = tt
take-Ascending target (suc (suc k)) (n ∷ []) h = tt
take-Ascending target (suc (suc k)) (n ∷ m ∷ nodes) (le, h) =
    (le, take-Ascending target (suc k) (m ∷ nodes) h)

-- The nodes that `FindClosest` gives stand in the order of their distance to the target.
pub find_closest-Ascending :
    (target : NodeId) (count : ℕ) (rt : RoutingTable)
    → Ascending target (find_closest target count rt)
unfolding find_closest
find_closest-Ascending target count rt =
    let i = start_at rt target in
    take-Ascending target count _
      (sort_nodes-Ascending target (widen num_buckets count rt.buckets i (suc i) (bucket_at rt i)))
