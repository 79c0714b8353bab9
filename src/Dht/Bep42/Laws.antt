-- ===== src/Dht/Bep42/Laws.antt =====
-- internal/dht/hardening/bep42.go: what is generated is accepted.
use jelly_torrent.Base.{
  ℕ, ◌+◌, ◌*◌, ◌/◌, ◌%◌, ◌^◌, ◌≡◌, ◌≤◌, refl, true, ◌&&◌, some, [], ◌∷◌, Bytes, get_or, length,
  ◌==◌, arith,
}
use jelly_torrent.Peer.Addr.{v4}
use jelly_torrent.Dht.NodeId.{NodeId}
use jelly_torrent.Dht.Bep42.{
  validate_node_id, generate_compliant_id, constrain, first21_bits_match, crc32c_from_ip,
}

three_tests : (a b c : ℕ) → ((a == a) && ((b == b) && (c == c))) ≡ true
three_tests a b c = ground arith

low_bits : (n c : ℕ) → (n / 8 * 8 + c % 8) / 8 * 8 ≡ n / 8 * 8
low_bits n c = omega arith

constrain-matches :
    (sum : ℕ) (random : NodeId)
    → 20 ≤ length random
    → (first21_bits_match (constrain sum random) sum ≡ true)
      × (get_or (constrain sum random) 19 0 ≡ get_or random 19 0)
      × (length (constrain sum random) ≡ length random)
unfolding constrain first21_bits_match
constrain-matches sum (a ∷ b ∷ c ∷ random) h = (
  rw (low_bits (sum / 2 ^ 8 % 256) c)
      (three_tests (sum / 2 ^ 24 % 256) (sum / 2 ^ 16 % 256) (sum / 2 ^ 8 % 256 / 8 * 8)),
  refl,
  refl,
)
constrain-matches sum [] h = absurd (omega arith)
constrain-matches sum (a ∷ []) h = absurd (omega arith)
constrain-matches sum (a ∷ b ∷ []) h = absurd (omega arith)

module _ (crc : Bytes → ℕ) where
  -- The identifier that is generated for an IPv4 address from twenty random bytes has twenty bytes, and is valid for that address.
  pub validate-generate_compliant_id :
      (random ip : Bytes)
      → length random ≡ 20
      → (id : NodeId) × (generate_compliant_id crc random (v4 ip) ≡ some id)
        × (length id ≡ 20)
        × (validate_node_id crc id (v4 ip) ≡ true)
  unfolding generate_compliant_id validate_node_id
  validate-generate_compliant_id random ip h =
      let sum = crc32c_from_ip crc ip (get_or random 19 0 % 8) in
      let (m, r, l) = constrain-matches sum random (omega arith) in
      (constrain sum random, refl, omega arith, rw r m)
