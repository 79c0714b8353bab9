-- ===== src/Dht/Bep42.antt =====
-- internal/dht/hardening/bep42.go: identifiers that fit an address. `crc` is CRC-32C.
pub mod Laws
use jelly_torrent.Base.{
  ℕ, ◌+◌, ◌*◌, ◌/◌, ◌%◌, ◌^◌, Bool, false, Option, none, some, List, [], ◌∷◌, Bytes, get_or, ◌==◌,
  ◌&&◌,
}
use jelly_torrent.Peer.Addr.{v4, mapped, v6, Addr}
use jelly_torrent.Dht.NodeId.{NodeId}

-- `id[2] & 0xf8` is the byte without its low three bits.
unfoldable pub first21_bits_match : NodeId → ℕ → Bool
first21_bits_match id sum =
    (get_or id 0 0 == sum / 2 ^ 24 % 256)
    && ((get_or id 1 0 == sum / 2 ^ 16 % 256)
        && (get_or id 2 0 / 8 * 8 == sum / 2 ^ 8 % 256 / 8 * 8))

-- The first 21 bits come from the sum, the others are random.
unfoldable pub constrain : ℕ → NodeId → NodeId
constrain sum (a ∷ b ∷ c ∷ id) =
    (sum / 2 ^ 24 % 256) ∷ (sum / 2 ^ 16 % 256) ∷ (sum / 2 ^ 8 % 256 / 8 * 8 + c % 8) ∷ id
constrain sum id = id

module _ (crc : Bytes → ℕ) where
  -- The masks keep the low bits, and `r`, below 8, goes above those of the first byte.
  unfoldable pub crc32c_from_ip : Bytes → ℕ → ℕ
  crc32c_from_ip ip4 r = crc (
      (get_or ip4 0 0 % 4 + r * 32)
      ∷ (get_or ip4 1 0 % 16)
      ∷ (get_or ip4 2 0 % 64)
      ∷ (get_or ip4 3 0 % 256)
      ∷ [])

  unfoldable pub validate_node_id : NodeId → Addr → Bool
  unfolding crc32c_from_ip first21_bits_match
  validate_node_id id (v4 ip) = first21_bits_match id (crc32c_from_ip ip (get_or id 19 0 % 8))
  validate_node_id id (mapped ip) = first21_bits_match id (crc32c_from_ip ip (get_or id 19 0 % 8))
  validate_node_id id (v6 ip) = false

  -- The argument is what `rand.Read` gives; `none` is the error on another address than an IPv4 one.
  unfoldable pub generate_compliant_id : Bytes → Addr → Option NodeId
  unfolding crc32c_from_ip constrain
  generate_compliant_id random (v4 ip) =
      some (constrain (crc32c_from_ip ip (get_or random 19 0 % 8)) random)
  generate_compliant_id random (mapped ip) =
      some (constrain (crc32c_from_ip ip (get_or random 19 0 % 8)) random)
  generate_compliant_id random (v6 ip) = none
