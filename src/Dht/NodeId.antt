-- ===== src/Dht/NodeId.antt =====
-- internal/dht/nodeid/nodeid.go. An identifier is its 20 bytes.
pub mod Metric
use Prim.Native.Nat.{bit_xor}
use jelly_torrent.Base.{
  Option, none, some, ℕ, zero, suc, ◌+◌, ◌*◌, ◌≡◌, refl, Bool, true, false, List, [], ◌∷◌, Bytes,
  All, length, ltb, leb, ◌==◌, if◌then◌else◌,
}
use jelly_torrent.Peer.BitField.{AreBytes}

abbrev pub NodeId : Type 0
NodeId = Bytes

abbrev pub IsId : NodeId → Type 0
IsId n = (length n ≡ 20) × AreBytes n

unfoldable pub distance : NodeId → NodeId → NodeId
distance [] other = []
distance (b ∷ n) [] = []
distance (b ∷ n) (c ∷ other) = bit_xor b c ∷ distance n other

-- `bits.LeadingZeros8`
unfoldable pub leading_zeros8 : ℕ → ℕ
leading_zeros8 b =
    if leb 128 b
    then 0
    else if leb 64 b
    then 1
    else if leb 32 b
    then 2
    else if leb 16 b
    then 3
    else if leb 8 b
    then 4
    else if leb 4 b
    then 5
    else if leb 2 b
    then 6
    else if leb 1 b
    then 7
    else 8

-- The loop of `PrefixLen`.
unfoldable pub count_zeros : Bytes → ℕ
unfolding leading_zeros8
count_zeros [] = 0
count_zeros (b ∷ dist) =
    let rest = count_zeros dist in if b == 0 then 8 + rest else leading_zeros8 b

unfoldable pub prefix_len : NodeId → NodeId → ℕ
unfolding count_zeros distance
prefix_len n other = count_zeros (distance n other)

unfoldable pub less : NodeId → NodeId → Bool
less [] other = false
less (b ∷ n) [] = false
less (b ∷ n) (c ∷ other) = let rest = less n other in if b == c then rest else ltb b c

-- `FromBytes`; `none` is the error on a length that is not 20.
unfoldable pub from_bytes : Bytes → Option NodeId
from_bytes s = if length s == 20 then some s else none
