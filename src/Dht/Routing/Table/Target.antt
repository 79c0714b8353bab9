-- ===== src/Dht/Routing/Table/Target.antt =====
-- internal/dht/routing/table.go: the target that refreshes a bucket falls in the bucket.
use Prim.Native.Nat.{bit_xor}
use jelly_torrent.Base.{
  ℕ, zero, suc, ◌+◌, ◌-◌, ◌*◌, ◌/◌, ◌%◌, ◌^◌, ◌<◌, ◌≡◌, refl, Bool, true, ◌&&◌, [], ◌∷◌, Bytes,
  arith, length, ◌==◌, if◌then◌else◌,
}
use jelly_torrent.Peer.BitField.{AreBytes}
use jelly_torrent.Dht.NodeId.{NodeId, IsId, distance, leading_zeros8, count_zeros, prefix_len}
use jelly_torrent.Base.Sweep.{passes, passes_from, passes_at, passes_lem}
use jelly_torrent.Dht.NodeId.Metric.{xor_self}
use jelly_torrent.Dht.Routing.Table.{RoutingTable, num_buckets, flip_from, target_for_bucket}

flip_row : ℕ → ℕ → Bool
flip_row b t =
    let d = bit_xor b (bit_xor b (2 ^ t)) in
    (if d == 0 then 8 else leading_zeros8 d) == 7 - t && (if d == 0 then 0 else 1) == 1

flip_table : passes (λ b. passes_from (flip_row b) 8) ≡ true
unfolding passes_from flip_row leading_zeros8
flip_table = refl

flip_fact : (b t : ℕ) → b < 256 → t < 8 → flip_row b t ≡ true
flip_fact b t hb ht =
    passes_at (flip_row b) 8 t ht (passes_lem (λ a. passes_from (flip_row a) 8) b flip_table hb)

count_zeros-flip_from :
    (k t : ℕ) (id : NodeId) (rnd : Bytes)
    → k < length id
    → t < 8
    → AreBytes id
    → count_zeros (distance id (flip_from k t id rnd)) ≡ 8 * k + (7 - t)
unfolding count_zeros distance flip_from
count_zeros-flip_from k t [] rnd lt ht bs = absurd (omega arith)
count_zeros-flip_from zero t (b ∷ id) rnd lt ht (hb, bs) =
    unfold flip_row in ground (arith, flip_fact b t hb ht)
count_zeros-flip_from (suc k) t (b ∷ id) rnd lt ht (hb, bs) =
    ground (arith, xor_self b hb, count_zeros-flip_from k t id rnd (omega arith) ht bs)

-- The random target that refreshes a bucket shares with the table's own identifier a prefix of exactly the bucket's number of bits, whatever the random bytes are.
pub prefix_len-target_for_bucket :
    (rt : RoutingTable) (bucket : ℕ) (rnd : Bytes)
    → IsId rt.self_id
    → bucket < num_buckets
    → prefix_len rt.self_id (target_for_bucket rt bucket rnd) ≡ bucket
unfolding prefix_len target_for_bucket
prefix_len-target_for_bucket rt bucket rnd (len, bs) lt = omega (
  arith,
  count_zeros-flip_from (bucket / 8) (7 - bucket % 8) rt.self_id rnd (omega arith) (omega arith) bs,
)
