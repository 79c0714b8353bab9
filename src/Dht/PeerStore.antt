-- ===== src/Dht/PeerStore.antt =====
-- internal/dht/peerstore.go. Times are numbers of a clock that does not run back; `nil` is the empty
-- slice.
pub mod Laws
use jelly_torrent.Base.{
  ℕ, zero, suc, ◌+◌, ◌-◌, Bool, true, false, Option, none, some, List, [], ◌∷◌, ◌++◌, Bytes,
  bytes_eq, length, ltb, ◌==◌, if◌then◌else◌,
}
use jelly_torrent.Peer.Addr.{AddrPort, same_addr}
use jelly_torrent.Base.Assoc.{Assoc, find, store}

pub record StoredPeer : Type 0 where
  pub addr : AddrPort
  pub added : ℕ

pub record PeerStore : Type 0 where
  pub peers : Assoc (List StoredPeer)
  pub ttl : ℕ

unfoldable pub new_peer_store : ℕ → PeerStore
new_peer_store ttl = record { peers = []; ttl = ttl }

-- The loop of `Add`: a known address gets a new time, and another one goes to the end.
unfoldable pub add_peer : AddrPort → ℕ → List StoredPeer → List StoredPeer
unfolding same_addr
add_peer addr now [] = record { addr = addr; added = now } ∷ []
add_peer addr now (p ∷ ps) =
    let rest = add_peer addr now ps in
    if same_addr p.addr addr then record p { added = now } ∷ ps else p ∷ rest

-- `m[k]`, with the zero value for a missing key.
abbrev pub peers_of : Bytes → Assoc (List StoredPeer) → List StoredPeer
peers_of k m = elim (find k m) [ none ↦ [] | some ps ↦ ps ]

unfoldable pub add : Bytes → AddrPort → ℕ → PeerStore → PeerStore
unfolding add_peer find store
add info_hash addr now ps = record ps {
  peers = store info_hash (add_peer addr now (peers_of info_hash ps.peers)) ps.peers;
}

abbrev pub is_alive : ℕ → ℕ → StoredPeer → Bool
is_alive ttl now p = ltb (now - p.added) ttl

unfoldable pub alive_addrs : ℕ → ℕ → List StoredPeer → List AddrPort
alive_addrs ttl now [] = []
alive_addrs ttl now (p ∷ ps) =
    let rest = alive_addrs ttl now ps in if is_alive ttl now p then p.addr ∷ rest else rest

unfoldable pub get : Bytes → ℕ → PeerStore → List AddrPort
unfolding alive_addrs find
get info_hash now ps = alive_addrs ps.ttl now (peers_of info_hash ps.peers)

-- The peers that stay, and how many have expired.
unfoldable pub keep_alive : ℕ → ℕ → List StoredPeer → List StoredPeer × ℕ
keep_alive ttl now [] = ([], 0)
keep_alive ttl now (p ∷ ps) =
    let (kept, expired) = keep_alive ttl now ps in
    if is_alive ttl now p then (p ∷ kept, expired) else (kept, suc expired)

-- The loop of `Expire` over the map: a key without peers is deleted.
unfoldable pub expire_all : ℕ → ℕ → Assoc (List StoredPeer) → Assoc (List StoredPeer) × ℕ
unfolding keep_alive
expire_all ttl now [] = ([], 0)
expire_all ttl now ((k, ps) ∷ m) =
    let (kept, expired) = keep_alive ttl now ps in
    let (rest, more) = expire_all ttl now m in
    (if length kept == 0 then rest else (k, kept) ∷ rest, expired + more)

unfoldable pub expire : ℕ → PeerStore → ℕ × PeerStore
unfolding expire_all
expire now ps =
    let (m, expired) = expire_all ps.ttl now ps.peers in (expired, record ps { peers = m })

unfoldable pub count_all : Assoc (List StoredPeer) → ℕ
count_all [] = 0
count_all ((k, ps) ∷ m) = length ps + count_all m

unfoldable pub count : PeerStore → ℕ
unfolding count_all
count ps = count_all ps.peers
