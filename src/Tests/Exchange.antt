-- ===== src/Tests/Exchange.antt =====
-- internal/peer/pex.go: runs at concrete inputs.
use jelly_torrent.Base.{◌≡◌, ◌≤◌, refl, [], ◌∷◌, Bytes, codes, max_int, arith, length}
use jelly_torrent.Base.Result.{ok, err, as4_of_ipv6}
use jelly_torrent.Peer.Pex.{PexMessage, compact_peers, encode_pex_message, parse_pex_message}
use jelly_torrent.Peer.Addr.{v4, v6, AddrPort}
use jelly_torrent.Peer.Pex.RoundTrip.{parse_pex_message-encode_pex_message}

abbrev pub local_peer : AddrPort
local_peer = record { addr = v4 (127 ∷ 0 ∷ 0 ∷ 1 ∷ []); port = 6881 }

abbrev pub six_peer : AddrPort
six_peer = record { addr = v6 (codes "2001:db8::1"); port = 6881 }

compact_local : compact_peers (local_peer ∷ []) ≡ ok (127 ∷ 0 ∷ 0 ∷ 1 ∷ 26 ∷ 225 ∷ [])
unfolding compact_peers
compact_local = refl

compact_six : compact_peers (local_peer ∷ six_peer ∷ []) ≡ err as4_of_ipv6
unfolding compact_peers
compact_six = refl

abbrev one_added : PexMessage
one_added = record { added = local_peer ∷ []; added_f = 0 ∷ []; dropped = [] }

parse_pex_message-encode_pex_message_example :
    (e : Bytes) × (encode_pex_message one_added ≡ ok (ok e))
    × (length e ≤ max_int → parse_pex_message e ≡ ok one_added)
parse_pex_message-encode_pex_message_example =
    parse_pex_message-encode_pex_message one_added
      ((127 ∷ 0 ∷ 0 ∷ 1 ∷ [], refl, refl, omega arith), tt) tt
