-- ===== src/Dht/Routing/Table/Failures.antt =====
-- internal/dht/routing/table.go: failed and answered queries.
use mathlib.Core.Path.{subst}
use jelly_torrent.Base.{
  ℕ, suc, ◌≤◌, ◌<◌, ◌≡◌, ◌≢◌, ◌⊎◌, inl, inr, refl, sym, ap, Bool, true, false, none, some, List, [],
  ◌∷◌, All, arith, length, leb, Bool-cases,
}
use jelly_torrent.Dht.NodeId.{NodeId, IsId, prefix_len}
use jelly_torrent.Dht.Routing.{Node, max_failures}
use jelly_torrent.Dht.Routing.Bucket.{Bucket, has_id}
use jelly_torrent.Dht.Routing.Bucket
use jelly_torrent.Dht.Routing.Bucket.Laws.{Lacks, Unique}
use jelly_torrent.Dht.Routing.Table.{
  RoutingTable, num_buckets, update_first, fail, succeed, count_failure, record_failure,
  note_success, record_success,
}
use jelly_torrent.Dht.Routing.Table.Laws.{
  IsTable, IsBucket, bucket_at-IsBucket, with_bucket-IsTable, remove-IsBucket,
}

-- `Updated id f old b nodes`: `old` is the first node of `b` with the identifier, and in `nodes`
-- it is `f old`.
pub data Updated (id : NodeId) (f : Node → Node) (old : Node) : List Node → List Node → Type 0 where
  here : {ns : List Node} → has_id id old ≡ true → Updated id f old (old ∷ ns) (f old ∷ ns)
  there :
      {m : Node} {ns nodes : List Node}
      → has_id id m ≡ false
      → Updated id f old ns nodes
      → Updated id f old (m ∷ ns) (m ∷ nodes)

abbrev Changed : NodeId → (Node → Node) → List Node → Type 0
Changed id f b =
    (old : Node) × (nodes : List Node) × (update_first id f b ≡ some (f old, nodes))
    × Updated id f old b nodes

update_first-cases :
    (id : NodeId) (f : Node → Node) (b : List Node)
    → ((update_first id f b ≡ none) × Lacks (has_id id) b) ⊎ Changed id f b
unfolding update_first
update_first-cases id f [] = inl (refl, tt)
update_first-cases id f (n ∷ b) = elim (Bool-cases (has_id id n)) [
  | inl e ↦ inr (n, f n ∷ b, rw e refl, here e)
  | inr e ↦ elim (update_first-cases id f b) [
    | inl (gone, lacks) ↦ inl (rw (e, gone) refl, (e, lacks))
    | inr (old, nodes, q, u) ↦ inr (old, n ∷ nodes, rw (e, q) refl, there e u)
  ]
]

module _ (id : NodeId) (f : Node → Node) (keeps : (n : Node) → (f n).id ≡ n.id) where
  Updated-All :
      (P : NodeId → Type 0) {old : Node} {b nodes : List Node}
      → Updated id f old b nodes
      → All (λ n. P n.id) b
      → All (λ n. P n.id) nodes
  Updated-All P {old} (here e) (p, ps) = (subst P (sym (keeps old)) p, ps)
  Updated-All P (there e u) (p, ps) = (p, Updated-All P u ps)

  Updated-Unique :
      {old : Node} {b nodes : List Node} → Updated id f old b nodes → Unique b → Unique nodes
  Updated-Unique {old} (here {ns} e) (u, us) =
      (subst (λ i. All (λ m. m.id ≢ i) ns) (sym (keeps old)) u, us)
  Updated-Unique (there {m} e r) (u, us) = (Updated-All (λ i. i ≢ m.id) r u, Updated-Unique r us)

  Updated-length :
      {old : Node} {b nodes : List Node} → Updated id f old b nodes → length nodes ≡ length b
  Updated-length (here e) = refl
  Updated-length (there e u) = ap suc (Updated-length u)

  Updated-IsBucket :
      (self_id : NodeId) (i : ℕ) {old : Node} {b nodes : List Node}
      → Updated id f old b nodes
      → IsBucket self_id i b
      → IsBucket self_id i nodes
  Updated-IsBucket self_id i u (v, ps) = (
    record {
      bounded = omega (arith, Updated-length u, v.bounded);
      unique = Updated-Unique u v.unique;
    },
    Updated-All (λ n. IsId n × (prefix_len self_id n ≡ i)) u ps,
  )

-- Each outcome of a failed query, with its condition.
pub data Counted (id : NodeId) (b : Bucket) : Bool × Bucket → Type 0 where
  absent : Lacks (has_id id) b → Counted id b (false, b)
  counts :
      (old : Node) (nodes : List Node)
      → Updated id fail old b nodes
      → suc old.fail_count < max_failures
      → Counted id b (false, nodes)
  evicted :
      (old : Node) (nodes : List Node)
      → Updated id fail old b nodes
      → max_failures ≤ suc old.fail_count
      → Counted id b (true, (Bucket.remove id nodes).1)

-- A failed query of a node that the bucket lacks changes nothing; otherwise its failure count grows by one, and the node leaves the bucket exactly when the count reaches five.
pub count_failure-Counted : (id : NodeId) (b : Bucket) → Counted id b (count_failure id b)
unfolding count_failure
count_failure-Counted id b = elim (update_first-cases id fail b) [
  | inl (gone, lacks) ↦ rw (gone, count_failure) (absent lacks)
  | inr (old, nodes, q, u) ↦ elim (Bool-cases (leb max_failures (suc old.fail_count))) [
    | inl e ↦ rw (q, count_failure, e) (evicted old nodes u (ground arith))
    | inr e ↦ rw (q, count_failure, e) (counts old nodes u (ground arith))
  ]
]

Counted-IsBucket :
    (self_id id : NodeId) (i : ℕ) {b : Bucket} {r : Bool × Bucket}
    → Counted id b r
    → IsBucket self_id i b
    → IsBucket self_id i r.1
Counted-IsBucket self_id id i (absent lacks) v = v
Counted-IsBucket self_id id i (counts old nodes u lt) v =
    Updated-IsBucket id fail (λ n. refl) self_id i u v
Counted-IsBucket self_id id i (evicted old nodes u le) v =
    remove-IsBucket self_id id i nodes (Updated-IsBucket id fail (λ n. refl) self_id i u v)

note_success-IsBucket :
    (self_id id : NodeId) (i now : ℕ) (b : Bucket)
    → IsBucket self_id i b
    → IsBucket self_id i (note_success id now b)
unfolding note_success
note_success-IsBucket self_id id i now b v = elim (update_first-cases id (succeed now) b) [
  | inl (gone, lacks) ↦ rw (gone, note_success) v
  | inr (old, nodes, q, u) ↦
      rw (q, note_success) (Updated-IsBucket id (succeed now) (λ n. refl) self_id i u v)
]

pub record_failure-IsTable :
    (id : NodeId) (rt : RoutingTable) → IsTable rt → IsTable (record_failure id rt).1
unfolding record_failure
record_failure-IsTable id rt v =
    let i = prefix_len rt.self_id id in
    elim (Bool-cases (leb num_buckets i)) [
      | inl e ↦ rw (e, record_failure) v
      | inr e ↦
          rw (e, record_failure)
            (with_bucket-IsTable rt i _ v (ground arith) (
              Counted-IsBucket rt.self_id id i (count_failure-Counted id _)
                (bucket_at-IsBucket rt i v)))
    ]

pub record_success-IsTable :
    (id : NodeId) (now : ℕ) (rt : RoutingTable) → IsTable rt → IsTable (record_success id now rt)
unfolding record_success
record_success-IsTable id now rt v =
    let i = prefix_len rt.self_id id in
    elim (Bool-cases (leb num_buckets i)) [
      | inl e ↦ rw (e, record_success) v
      | inr e ↦
          rw (e, record_success)
            (with_bucket-IsTable rt i _ v (ground arith)
              (note_success-IsBucket rt.self_id id i now _ (bucket_at-IsBucket rt i v)))
    ]
