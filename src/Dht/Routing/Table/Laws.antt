-- ===== src/Dht/Routing/Table/Laws.antt =====
-- internal/dht/routing/table.go: every node stands in the bucket of its prefix.
use mathlib.Core.Path.{subst}
use jelly_torrent.Base.{
  ℕ, zero, suc, ◌<◌, ◌≡◌, inl, inr, refl, sym, Bool, Option, some, List, [], ◌∷◌, All, All-append,
  arith, length, ◌∙◌, length-set, length-replicate, get_elem?, get_elem?-set_self, get_elem?-set_ne,
  get_or, set, replicate, leb, ◌==◌, ==_iff, Bool-cases,
}
use jelly_torrent.Dht.NodeId.{NodeId, IsId, prefix_len}
use jelly_torrent.Dht.Routing.{Node}
use jelly_torrent.Dht.Routing.Bucket.{Bucket}
use jelly_torrent.Dht.Routing.Bucket
use jelly_torrent.Dht.Routing.Bucket.Laws.{
  Inserted, refreshes, appends, evicts, rejects, insert-Inserted, insert-IsValid, remove-IsValid,
  Removed-All, remove_first-cases,
}
use jelly_torrent.Dht.Routing.Bucket.Laws
use jelly_torrent.Dht.Routing.Table.{
  RoutingTable, new_routing_table, insert, remove, num_buckets, bucket_at, with_bucket,
}

abbrev pub IsPlaced : NodeId → ℕ → Node → Type 0
IsPlaced self_id i n = IsId n.id × (prefix_len self_id n.id ≡ i)

abbrev pub IsBucket : NodeId → ℕ → Bucket → Type 0
IsBucket self_id i b = Laws.IsValid b × All (IsPlaced self_id i) b

pub record IsTable (rt : RoutingTable) : Type 0 where
  pub self_is : IsId rt.self_id
  pub size : length rt.buckets ≡ num_buckets
  pub placed : (i : ℕ) (b : Bucket) → get_elem? rt.buckets i ≡ some b → IsBucket rt.self_id i b

empty-IsBucket : (self_id : NodeId) (i : ℕ) → IsBucket self_id i []
empty-IsBucket self_id i = (record { bounded = omega arith; unique = tt }, tt)

get_or-any :
    (Q : ℕ → Bucket → Type 0) (bs : List Bucket) (i : ℕ)
    → ((j : ℕ) (b : Bucket) → get_elem? bs j ≡ some b → Q j b)
    → ((j : ℕ) → Q j [])
    → Q i (get_or bs i [])
get_or-any Q [] i h e = e i
get_or-any Q (b ∷ bs) zero h e = h 0 b refl
get_or-any Q (b ∷ bs) (suc i) h e =
    get_or-any (λ j. Q (suc j)) bs i (λ j. h (suc j)) (λ j. e (suc j))

pub bucket_at-IsBucket :
    (rt : RoutingTable) (i : ℕ) → IsTable rt → IsBucket rt.self_id i (bucket_at rt i)
bucket_at-IsBucket rt i v =
    get_or-any (IsBucket rt.self_id) rt.buckets i v.placed (empty-IsBucket rt.self_id)

set-placed :
    (rt : RoutingTable) (i j : ℕ) (b c : Bucket)
    → IsTable rt
    → i < num_buckets
    → IsBucket rt.self_id i b
    → get_elem? (set rt.buckets i b) j ≡ some c
    → IsBucket rt.self_id j c
set-placed rt i j b c v lt p h = elim (Bool-cases (i == j)) [
  | inl e ↦
      let same = (==_iff i j).0 e in
      let got = get_elem?-set_self rt.buckets i b (omega (arith, v.size)) in
      subst (λ k. IsBucket rt.self_id k c) same
        (subst (IsBucket rt.self_id i) (cc (h, got, same)) p)
  | inr e ↦ v.placed j c (sym (get_elem?-set_ne rt.buckets b (λ q. absurd (ground arith))) ∙ h)
]

pub with_bucket-IsTable :
    (rt : RoutingTable) (i : ℕ) (b : Bucket)
    → IsTable rt
    → i < num_buckets
    → IsBucket rt.self_id i b
    → IsTable (with_bucket rt i b)
with_bucket-IsTable rt i b v lt p = record {
  self_is = v.self_is;
  size = length-set rt.buckets i b ∙ v.size;
  placed = λ j c. set-placed rt i j b c v lt p;
}

replicate-get : (n j : ℕ) (c : Bucket) → get_elem? (replicate n []) j ≡ some c → [] ≡ c
replicate-get zero j c h = cc
replicate-get (suc n) zero c h = cc
replicate-get (suc n) (suc j) c h = replicate-get n j c h

all_empty :
    (id : NodeId) (n j : ℕ) (c : Bucket) → get_elem? (replicate n []) j ≡ some c → IsBucket id j c
all_empty id n j c h = subst (IsBucket id j) (replicate-get n j c h) (empty-IsBucket id j)

pub new_routing_table-IsTable : (id : NodeId) → IsId id → IsTable (new_routing_table id)
unfolding new_routing_table
new_routing_table-IsTable id h = record {
  self_is = h;
  size = length-replicate {A = Bucket} num_buckets [];
  placed = λ j c e. all_empty id num_buckets j c e;
}

pub Inserted-All :
    (P : Node → Type 0) {node : Node} {b : Bucket} {r : (Option Node × Bool) × Bucket}
    → Inserted node b r
    → P node
    → All P b
    → All P r.1
Inserted-All P {node} (refreshes n left r) p ps =
    All-append P left (node ∷ []) (Removed-All P r ps) (p, tt)
Inserted-All P {node} {b} (appends l ne) p ps = All-append P b (node ∷ []) ps (p, tt)
Inserted-All P {node} (evicts n left l full c r) p ps =
    All-append P left (node ∷ []) (Removed-All P r ps) (p, tt)
Inserted-All P (rejects l full w) p ps = ps

remove-All : (P : Node → Type 0) (id : NodeId) (b : Bucket) → All P b → All P (Bucket.remove id b).1
unfolding Bucket.remove
remove-All P id b ps = elim (remove_first-cases (Bucket.has_id id) b) [
  | inl (gone, lacks) ↦ rw (gone, Bucket.remove) ps
  | inr (left, n, q, r) ↦ rw (q, Bucket.remove) (Removed-All P r ps)
]

pub remove-IsBucket :
    (self_id id : NodeId) (i : ℕ) (b : Bucket)
    → IsBucket self_id i b
    → IsBucket self_id i (Bucket.remove id b).1
remove-IsBucket self_id id i b (v, ps) = ((remove-IsValid id b v).0, remove-All _ id b ps)

pub insert-IsTable :
    (node : Node) (rt : RoutingTable) → IsId node.id → IsTable rt → IsTable (insert node rt).1
unfolding insert
insert-IsTable node rt h v =
    let i = prefix_len rt.self_id node.id in
    let (ok_bucket, ps) = bucket_at-IsBucket rt i v in
    elim (Bool-cases (leb num_buckets i)) [
      | inl e ↦ rw (e, insert) v
      | inr e ↦
          rw (e, insert)
            (with_bucket-IsTable rt i _ v (ground arith) (
              insert-IsValid node _ ok_bucket,
              Inserted-All _ (insert-Inserted node _) (h, refl) ps,
            ))
    ]

pub remove-IsTable : (id : NodeId) (rt : RoutingTable) → IsTable rt → IsTable (remove id rt).1
unfolding remove
remove-IsTable id rt v =
    let i = prefix_len rt.self_id id in
    elim (Bool-cases (leb num_buckets i)) [
      | inl e ↦ rw (e, remove) v
      | inr e ↦
          rw (e, remove)
            (with_bucket-IsTable rt i _ v (ground arith)
              (remove-IsBucket rt.self_id id i _ (bucket_at-IsBucket rt i v)))
    ]
