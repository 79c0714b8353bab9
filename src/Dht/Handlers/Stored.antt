-- ===== src/Dht/Handlers/Stored.antt =====
-- internal/dht/dht.go: a node that holds IPv4 addresses only, and their compact forms.
use jelly_torrent.Base.{
  ℕ, ◌/◌, ◌%◌, ◌≡◌, refl, inl, inr, List, [], ◌∷◌, ◌++◌, Bytes, All, bytes_eq, Bool-cases,
}
use jelly_torrent.Base.Result.{ok}
use jelly_torrent.Base.Assoc.{Assoc, find, store}
use jelly_torrent.Bencode.{Items, nil, cons, str}
use jelly_torrent.Bencode.Encode.{encode, encode_items, encode_string}
use jelly_torrent.Peer.Addr.{AddrPort, as4, same_addr}
use jelly_torrent.Dht.Routing.{Node}
use jelly_torrent.Dht.Routing.Table.Nodes.{AllNodes}
use jelly_torrent.Dht.PeerStore.{PeerStore, StoredPeer, peers_of, add_peer, alive_addrs, is_alive}
use jelly_torrent.Dht.PeerStore
use jelly_torrent.Dht.Handlers.{Dht, compact_addr, compact_nodes, compact_values}

abbrev pub IsIpv4 : AddrPort → Type 0
IsIpv4 a = (ip : Bytes) × (as4 a.addr ≡ ok ip)

abbrev pub IsNodeV4 : Node → Type 0
IsNodeV4 n = IsIpv4 n.addr

abbrev pub AreStoredV4 : List StoredPeer → Type 0
AreStoredV4 ps = All (λ p. IsIpv4 p.addr) ps

-- Every address that the node holds is an IPv4 one, mapped or not.
pub record HoldsV4 (d : Dht) : Type 0 where
  pub nodes : AllNodes IsNodeV4 d.table.buckets
  pub stored : All (λ e. AreStoredV4 e.1) d.peers.peers

pub compact_addr-ok : (a : AddrPort) → IsIpv4 a → (bs : Bytes) × (compact_addr a ≡ ok bs)
unfolding compact_addr
compact_addr-ok a (ip, h) = (ip ++ (a.port / 256 ∷ a.port % 256 ∷ []), rw h refl)

pub compact_nodes-ok :
    (ns : List Node) → All IsNodeV4 ns → (bs : Bytes) × (compact_nodes ns ≡ ok bs)
unfolding compact_nodes
compact_nodes-ok [] h = ([], refl)
compact_nodes-ok (n ∷ ns) (h, hs) =
    let (bs, p) = compact_nodes-ok ns hs in
    let (addr, q) = compact_addr-ok n.addr h in (n.id ++ (addr ++ bs), rw (q, p) refl)

cons-encodes :
    (s e : Bytes) (xs : Items)
    → encode_items xs ≡ ok e
    → encode_items (cons (str s) xs) ≡ ok (encode_string s ++ e)
unfolding encode
cons-encodes s e xs h = rw h refl

nil-encodes : encode_items nil ≡ ok []
unfolding encode
nil-encodes = refl

-- The values have an encoding too.
pub compact_values-ok :
    (addrs : List AddrPort)
    → All IsIpv4 addrs
    → (xs : Items) × (compact_values addrs ≡ ok xs) × ((e : Bytes) × (encode_items xs ≡ ok e))
unfolding compact_values
compact_values-ok [] h = (nil, refl, ([], nil-encodes))
compact_values-ok (a ∷ addrs) (h, hs) =
    let (xs, p, (e, q)) = compact_values-ok addrs hs in
    let (addr, r) = compact_addr-ok a h in
    (cons (str addr) xs, rw (r, p) refl, (encode_string addr ++ e, cons-encodes addr e xs q))

pub find-V4 :
    (k : Bytes) (m : Assoc (List StoredPeer))
    → All (λ e. AreStoredV4 e.1) m
    → AreStoredV4 (peers_of k m)
unfolding find
find-V4 k [] h = tt
find-V4 k ((j, ps) ∷ m) (h, hs) = elim (Bool-cases (bytes_eq j k)) [
  | inl e ↦ rw (e, peers_of) h
  | inr e ↦ rw (e, peers_of) (find-V4 k m hs)
]

pub store-V4 :
    (k : Bytes) (ps : List StoredPeer) (m : Assoc (List StoredPeer))
    → AreStoredV4 ps
    → All (λ e. AreStoredV4 e.1) m
    → All (λ e. AreStoredV4 e.1) (store k ps m)
unfolding store
store-V4 k ps [] p h = (p, tt)
store-V4 k ps ((j, qs) ∷ m) p (h, hs) = elim (Bool-cases (bytes_eq j k)) [
  | inl e ↦ rw e (p, hs)
  | inr e ↦ rw e (h, store-V4 k ps m p hs)
]

pub add_peer-V4 :
    (addr : AddrPort) (now : ℕ) (ps : List StoredPeer)
    → IsIpv4 addr
    → AreStoredV4 ps
    → AreStoredV4 (add_peer addr now ps)
unfolding add_peer
add_peer-V4 addr now [] a h = (a, tt)
add_peer-V4 addr now (p ∷ ps) a (h, hs) = elim (Bool-cases (same_addr p.addr addr)) [
  | inl e ↦ rw e (h, hs)
  | inr e ↦ rw e (h, add_peer-V4 addr now ps a hs)
]

pub alive_addrs-V4 :
    (ttl now : ℕ) (ps : List StoredPeer) → AreStoredV4 ps → All IsIpv4 (alive_addrs ttl now ps)
unfolding alive_addrs
alive_addrs-V4 ttl now [] h = tt
alive_addrs-V4 ttl now (p ∷ ps) (h, hs) = elim (Bool-cases (is_alive ttl now p)) [
  | inl e ↦ rw e (h, alive_addrs-V4 ttl now ps hs)
  | inr e ↦ rw e (alive_addrs-V4 ttl now ps hs)
]

pub get-V4 :
    (k : Bytes) (now : ℕ) (ps : PeerStore)
    → All (λ e. AreStoredV4 e.1) ps.peers
    → All IsIpv4 (PeerStore.get k now ps)
unfolding PeerStore.get
get-V4 k now ps h = alive_addrs-V4 ps.ttl now (peers_of k ps.peers) (find-V4 k ps.peers h)

pub add-V4 :
    (k : Bytes) (addr : AddrPort) (now : ℕ) (ps : PeerStore)
    → IsIpv4 addr
    → All (λ e. AreStoredV4 e.1) ps.peers
    → All (λ e. AreStoredV4 e.1) (PeerStore.add k addr now ps).peers
unfolding PeerStore.add
add-V4 k addr now ps a h =
    store-V4 k (add_peer addr now (peers_of k ps.peers)) ps.peers
      (add_peer-V4 addr now (peers_of k ps.peers) a (find-V4 k ps.peers h)) h
