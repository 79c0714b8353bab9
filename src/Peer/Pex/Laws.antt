-- ===== src/Peer/Pex/Laws.antt =====
-- internal/peer/pex.go: a message that is encoded and parsed.
use jelly_torrent.Base.{
  ℕ, suc, ◌*◌, ◌/◌, ◌%◌, ◌<◌, ◌≡◌, refl, sym, ap, ◌∙◌, List, [], ◌∷◌, ◌++◌, Bytes, All, arith,
  length, length-append,
}
use jelly_torrent.Base.Result.{ok}
use jelly_torrent.Peer.Pex.{compact_peers, parse_peers, parse_compact_peers}
use jelly_torrent.Peer.Addr.{v4, AddrPort}

-- A peer with an IPv4 address of four bytes and a 16-bit port.
abbrev pub IsV4 : AddrPort → Type 0
IsV4 a = (ip : Bytes) × (a.addr ≡ v4 ip) × (length ip ≡ 4) × (a.port < 65536)

entry-parsed :
    (n : ℕ) (ip more : Bytes) (port : ℕ)
    → length ip ≡ 4
    → parse_peers (suc n) (ip ++ (port / 256 ∷ port % 256 ∷ more))
      ≡ record { addr = v4 ip; port = port } ∷ parse_peers n more
unfolding parse_peers
entry-parsed n (a ∷ b ∷ c ∷ d ∷ []) more port h =
    ap (λ p. record { addr = v4 (a ∷ b ∷ c ∷ d ∷ []); port = p } ∷ parse_peers n more) (omega arith)
entry-parsed n [] more port h = absurd (omega arith)
entry-parsed n (a ∷ []) more port h = absurd (omega arith)
entry-parsed n (a ∷ b ∷ []) more port h = absurd (omega arith)
entry-parsed n (a ∷ b ∷ c ∷ []) more port h = absurd (omega arith)
entry-parsed n (a ∷ b ∷ c ∷ d ∷ e ∷ ip) more port h = absurd (omega arith)

abbrev Compacted : List AddrPort → Type 0
Compacted addrs =
    (bs : Bytes) × (compact_peers addrs ≡ ok bs)
    × (length bs ≡ 6 * length addrs)
    × (parse_peers (length addrs) bs ≡ addrs)

compact_peers-Compacted : (addrs : List AddrPort) → All IsV4 addrs → Compacted addrs
unfolding compact_peers
compact_peers-Compacted [] h = ([], refl, omega arith, unfold parse_peers in refl)
compact_peers-Compacted (a ∷ addrs) ((ip, e, four, lt), h) =
    let (bs, q, len, back) = compact_peers-Compacted addrs h in
    (
      ip ++ (a.port / 256 ∷ a.port % 256 ∷ bs),
      rw (e, compact_peers, q) refl,
      omega (arith, length-append ip (a.port / 256 ∷ a.port % 256 ∷ bs)),
      entry-parsed (length addrs) ip bs a.port four
          ∙ ap (λ r. record { addr = v4 ip; port = a.port } ∷ r) back
          ∙ ap (λ t. record a { addr = t } ∷ addrs) (sym e),
    )

-- The compact form of IPv4 peers has six bytes for each, and is parsed to the same peers.
pub parse_compact_peers-compact_peers :
    (addrs : List AddrPort)
    → All IsV4 addrs
    → (bs : Bytes) × (compact_peers addrs ≡ ok bs)
      × (length bs ≡ 6 * length addrs)
      × (parse_compact_peers bs ≡ addrs)
unfolding parse_compact_peers
parse_compact_peers-compact_peers addrs h =
    let (bs, q, len, back) = compact_peers-Compacted addrs h in
    let count : length bs / 6 ≡ length addrs = omega arith in
    (bs, q, len, ap (λ n. parse_peers n bs) count ∙ back)
