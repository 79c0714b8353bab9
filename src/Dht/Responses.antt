-- ===== src/Dht/Responses.antt =====
-- internal/dht/dht.go: what is read from the answers to a node's own queries.
pub mod RoundTrip
use jelly_torrent.Base.{
  ℕ, zero, suc, ◌+◌, ◌*◌, ◌/◌, ◌%◌, false, Option, none, some, List, [], ◌∷◌, Bytes, length, get_or,
  take, drop, ◌==◌, if◌then◌else◌,
}
use jelly_torrent.Bencode.{Value}
use jelly_torrent.Peer.Addr.{v4, AddrPort}
use jelly_torrent.Dht.Routing.{Node}
use jelly_torrent.Dht.Messages.{to_string}

unfoldable pub parse_compact_addr : Bytes → Option AddrPort
parse_compact_addr d =
    if length d == 6
    then some (record { addr = v4 (take 4 d); port = get_or d 4 0 * 256 + get_or d 5 0 })
    else none

-- `none` is the error.
unfoldable pub parse_compact_peer : Value → Option AddrPort
unfolding to_string parse_compact_addr
parse_compact_peer raw = elim (to_string raw) [ none ↦ none | some d ↦ parse_compact_addr d ]

-- A node that was just seen.
abbrev pub seen : ℕ → Bytes → AddrPort → Node
seen now id addr = record {
  id = id;
  addr = addr;
  last_seen = now;
  compliant = false;
  fail_count = 0;
}

-- `AddrFrom4` and `Uint16` of the six bytes after the identifier.
unfoldable pub addr_at : Bytes → AddrPort
addr_at d = record { addr = v4 (take 4 d); port = get_or d 4 0 * 256 + get_or d 5 0 }

-- The loop, for as many nodes as are left; the identifier has twenty bytes.
unfoldable pub parse_nodes : ℕ → ℕ → Bytes → List Node
unfolding addr_at
parse_nodes now zero d = []
parse_nodes now (suc n) d =
    seen now (take 20 d) (addr_at (drop 20 d)) ∷ parse_nodes now n (drop 26 d)

unfoldable pub nodes_of : ℕ → Option Bytes → List Node
unfolding parse_nodes
nodes_of now none = []
nodes_of now (some d) = if length d % 26 == 0 then parse_nodes now (length d / 26) d else []

unfoldable pub parse_compact_nodes : ℕ → Value → List Node
unfolding nodes_of to_string
parse_compact_nodes now raw = nodes_of now (to_string raw)
