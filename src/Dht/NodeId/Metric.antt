-- ===== src/Dht/NodeId/Metric.antt =====
-- internal/dht/nodeid/nodeid.go: the XOR distance and the length of a common prefix.
use Prim.Native.Nat.{bit_xor}
use jelly_torrent.Base.{
  ℕ, suc, ◌*◌, ◌≤◌, ◌<◌, ◌≡◌, ◌↔◌, refl, ap, Bool, true, [], ◌∷◌, Bytes, arith, length, ltb, ◌==◌,
  if◌then◌else◌,
}
use jelly_torrent.Base.Sweep.{passes, passes_from, passes_lem}
use jelly_torrent.Peer.BitField.{AreBytes}
use jelly_torrent.Dht.NodeId.{NodeId, IsId, distance, leading_zeros8, count_zeros, prefix_len, less}

xor_row : ℕ → ℕ → Bool
xor_row x y = if x == y then bit_xor x y == 0 else ltb 0 (bit_xor x y)

xor_table : passes (λ x. passes (xor_row x)) ≡ true
unfolding passes_from xor_row
xor_table = refl

leading_zeros8-lt : (b c : ℕ) → leading_zeros8 b < leading_zeros8 c → c < b
unfolding leading_zeros8
leading_zeros8-lt b c h = ground arith

leading_zeros8-small : (b : ℕ) → 0 < b → leading_zeros8 b < 8
unfolding leading_zeros8
leading_zeros8-small b h = ground arith

-- More zeros in front make the smaller number.
count_zeros-less :
    (d e : Bytes) → length d ≡ length e → count_zeros d < count_zeros e → less e d ≡ true
unfolding count_zeros less
count_zeros-less [] [] same h = absurd (omega arith)
count_zeros-less [] (y ∷ e) same h = absurd (omega arith)
count_zeros-less (x ∷ d) [] same h = absurd (omega arith)
count_zeros-less (x ∷ d) (y ∷ e) same h = ground (
  arith,
  count_zeros-less d e,
  leading_zeros8-lt x y,
  leading_zeros8-small x,
  leading_zeros8-small y,
)

pub length-distance : (n m : NodeId) → length n ≡ length m → length (distance n m) ≡ length n
unfolding distance
length-distance [] m h = refl
length-distance (b ∷ n) [] h = absurd (omega arith)
length-distance (b ∷ n) (c ∷ m) h = ap suc (length-distance n m (omega arith))

-- Of two identifiers, the one that shares the longer prefix with a target is the closer one to it in the XOR metric: a node of a deeper bucket is closer to the table's own identifier.
pub prefix_len-less :
    (target a b : NodeId)
    → IsId target
    → IsId a
    → IsId b
    → prefix_len target a < prefix_len target b
    → less (distance target b) (distance target a) ≡ true
unfolding prefix_len
prefix_len-less target a b (t, _) (la, _) (lb, _) h =
    count_zeros-less _ _
      (omega
        (arith, length-distance target a (omega arith), length-distance target b (omega arith)))
      h

xor_fact : (x y : ℕ) → x < 256 → y < 256 → xor_row x y ≡ true
xor_fact x y hx hy =
    passes_lem (xor_row x) y (passes_lem (λ a. passes (xor_row a)) x xor_table hx) hy

xor_zero : (x y : ℕ) → x < 256 → y < 256 → (bit_xor x y ≡ 0) ↔ (x ≡ y)
unfolding xor_row
xor_zero x y hx hy = ground (arith, xor_fact x y hx hy)

pub xor_self : (x : ℕ) → x < 256 → bit_xor x x ≡ 0
xor_self x h = (xor_zero x x h h).1 refl

count_zeros-distance :
    (a b : NodeId)
    → length a ≡ length b
    → AreBytes a
    → AreBytes b
    → (count_zeros (distance a b) ≤ 8 * length a)
      × ((count_zeros (distance a b) ≡ 8 * length a) ↔ (a ≡ b))
unfolding distance count_zeros
count_zeros-distance [] [] len ba bb = (omega arith, ((λ _. refl), (λ _. refl)))
count_zeros-distance [] (y ∷ b) len ba bb = absurd (omega arith)
count_zeros-distance (x ∷ a) [] len ba bb = absurd (omega arith)
count_zeros-distance (x ∷ a) (y ∷ b) len (hx, ba) (hy, bb) = ground (
  arith,
  count_zeros-distance a b (omega arith) ba bb,
  xor_zero x y hx hy,
  leading_zeros8-small (bit_xor x y),
)

-- The common prefix of two identifiers has at most 160 bits, and 160 only when they are the same.
pub prefix_len-full :
    (a b : NodeId) → IsId a → IsId b → (prefix_len a b ≤ 160) × ((prefix_len a b ≡ 160) ↔ (a ≡ b))
unfolding prefix_len
prefix_len-full a b (la, ba) (lb, bb) =
    let (le, full) = count_zeros-distance a b (omega arith) ba bb in
    let e : 8 * length a ≡ 160 = omega arith in rw (← e) (le, full)
