-- ===== src/Dht/Routing/Table/Stale.antt =====
-- internal/dht/routing/table.go: the nodes and the buckets that have not been seen for a while. The
-- cutoff is `now - threshold`, so that a time before it is one with `threshold` added before `now`.
use jelly_torrent.Base.{
  ℕ, suc, ◌+◌, ◌≡◌, Bool, true, false, List, [], ◌∷◌, ◌++◌, All, arith, ltb, if◌then◌else◌,
  Bool-cases, inl, inr,
}
use jelly_torrent.Dht.Routing.{Node}
use jelly_torrent.Dht.Routing.Bucket.{Bucket}
use jelly_torrent.Dht.Routing.Table.{RoutingTable}

module _ (threshold now : ℕ) where
  abbrev pub is_before_cutoff : Node → Bool
  is_before_cutoff n = ltb (n.last_seen + threshold) now

  abbrev pub is_after_cutoff : Node → Bool
  is_after_cutoff n = ltb now (n.last_seen + threshold)

  unfoldable pub stale_in : Bucket → List Node
  stale_in [] = []
  stale_in (n ∷ nodes) = let rest = stale_in nodes in if is_before_cutoff n then n ∷ rest else rest

  unfoldable pub stale_nodes : List Bucket → List Node
  unfolding stale_in
  stale_nodes [] = []
  stale_nodes (b ∷ bs) = stale_in b ++ stale_nodes bs

  unfoldable pub stale : RoutingTable → List Node
  unfolding stale_nodes
  stale rt = stale_nodes rt.buckets

  -- The loop with the flag `allStale`.
  unfoldable pub all_stale : Bucket → Bool
  all_stale [] = true
  all_stale (n ∷ nodes) = let rest = all_stale nodes in if is_after_cutoff n then false else rest

  unfoldable pub stale_indices : ℕ → List Bucket → List ℕ
  unfolding all_stale
  stale_indices i [] = []
  stale_indices i ([] ∷ bs) = stale_indices (suc i) bs
  stale_indices i ((n ∷ nodes) ∷ bs) =
      let rest = stale_indices (suc i) bs in if all_stale (n ∷ nodes) then i ∷ rest else rest

  unfoldable pub stale_buckets : RoutingTable → List ℕ
  unfolding stale_indices
  stale_buckets rt = stale_indices 0 rt.buckets

  -- Every node of a stale bucket is past the threshold.
  all_stale-All : (b : Bucket) → all_stale b ≡ true → All (λ n. is_after_cutoff n ≡ false) b
  unfolding all_stale
  all_stale-All [] h = tt
  all_stale-All (n ∷ nodes) h = elim (Bool-cases (is_after_cutoff n)) [
    | inl e ↦ absurd (ground arith)
    | inr e ↦ (e, all_stale-All nodes (ground arith))
  ]
