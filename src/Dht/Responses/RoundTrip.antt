-- ===== src/Dht/Responses/RoundTrip.antt =====
-- internal/dht/dht.go: the nodes that one node sends are those that another one reads.
use jelly_torrent.Base.{
  ℕ, suc, ◌*◌, ◌/◌, ◌%◌, ◌≡◌, refl, sym, ap, ◌∙◌, List, [], ◌∷◌, ◌++◌, Bytes, All, arith, length,
  length-append, take, drop, map, take-append, drop-append, drop-add, true, ◌==◌, ==_iff,
}
use jelly_torrent.Base.Result.{ok}
use jelly_torrent.Bencode.Texts.{text}
use jelly_torrent.Dht.Routing.{Node}
use jelly_torrent.Dht.Messages.RoundTrip.{to_string-text}
use jelly_torrent.Dht.Handlers.{compact_addr, compact_nodes}
use jelly_torrent.Peer.Addr.{v4, AddrPort}
use jelly_torrent.Peer.Pex.Laws.{IsV4}
use jelly_torrent.Dht.Responses.{seen, addr_at, parse_nodes, nodes_of, parse_compact_nodes}

-- A node with an identifier of twenty bytes, an IPv4 address, and a 16-bit port.
abbrev pub IsCompact : Node → Type 0
IsCompact n = (length n.id ≡ 20) × IsV4 n.addr

front : (k : ℕ) (xs ys : Bytes) → length xs ≡ k → take k (xs ++ ys) ≡ xs
front k xs ys e = ap (λ j. take j (xs ++ ys)) (sym e) ∙ take-append xs ys

behind : (k : ℕ) (xs ys : Bytes) → length xs ≡ k → drop k (xs ++ ys) ≡ ys
behind k xs ys e = ap (λ j. drop j (xs ++ ys)) (sym e) ∙ drop-append xs ys

-- The four bytes of an address and the two of a port.
six : Bytes → ℕ → Bytes
six ip port = ip ++ (port / 256 ∷ port % 256 ∷ [])

length-six : (ip : Bytes) (port : ℕ) → length ip ≡ 4 → length (six ip port) ≡ 6
unfolding six
length-six ip port h = omega (arith, length-append ip (port / 256 ∷ port % 256 ∷ []))

addr-back :
    (ip more : Bytes) (port : ℕ)
    → length ip ≡ 4
    → addr_at (six ip port ++ more) ≡ record { addr = v4 ip; port = port }
unfolding addr_at six
addr-back (a ∷ b ∷ c ∷ d ∷ []) more port h =
    ap (λ p. record { addr = v4 (a ∷ b ∷ c ∷ d ∷ []); port = p }) (omega arith)
addr-back [] more port h = absurd (omega arith)
addr-back (a ∷ []) more port h = absurd (omega arith)
addr-back (a ∷ b ∷ []) more port h = absurd (omega arith)
addr-back (a ∷ b ∷ c ∷ []) more port h = absurd (omega arith)
addr-back (a ∷ b ∷ c ∷ d ∷ e ∷ ip) more port h = absurd (omega arith)

node-parsed :
    (now n : ℕ) (id ip more : Bytes) (port : ℕ)
    → length id ≡ 20
    → length ip ≡ 4
    → parse_nodes now (suc n) (id ++ (six ip port ++ more))
      ≡ seen now id (record { addr = v4 ip; port = port }) ∷ parse_nodes now n more
unfolding parse_nodes
node-parsed now n id ip more port i four =
    let entry = six ip port in
    let back : drop 20 (id ++ (entry ++ more)) ≡ entry ++ more = behind 20 id (entry ++ more) i in
    let rest : drop 26 (id ++ (entry ++ more)) ≡ more =
      drop-add 20 6 (id ++ (entry ++ more))
      ∙ ap (drop 6) back
      ∙ behind 6 entry more (length-six ip port four) in
    λ j.
      seen now (front 20 id (entry ++ more) i j) ((ap addr_at back ∙ addr-back ip more port four) j)
      ∷ parse_nodes now n (rest j)

compact_addr-six :
    (addr : AddrPort) (ip : Bytes) → addr.addr ≡ v4 ip → compact_addr addr ≡ ok (six ip addr.port)
unfolding compact_addr six
compact_addr-six addr ip e = rw e refl

abbrev Compacted : ℕ → List Node → Type 0
Compacted now ns =
    (bs : Bytes) × (compact_nodes ns ≡ ok bs)
    × (length bs ≡ 26 * length ns)
    × (parse_nodes now (length ns) bs ≡ map (λ n. seen now n.id n.addr) ns)

compact_nodes-Compacted : (now : ℕ) (ns : List Node) → All IsCompact ns → Compacted now ns
unfolding compact_nodes
compact_nodes-Compacted now [] h = ([], refl, omega arith, unfold parse_nodes in refl)
compact_nodes-Compacted now (n ∷ ns) ((i, (ip, e, four, lt)), h) =
    let (bs, p, len, back) = compact_nodes-Compacted now ns h in
    let entry = six ip n.addr.port in
    (
      n.id ++ (entry ++ bs),
      rw (compact_addr-six n.addr ip e, p) refl,
      omega (
        arith,
        length-append n.id (entry ++ bs),
        length-append entry bs,
        length-six ip n.addr.port four,
      ),
      node-parsed now (length ns) n.id ip bs n.addr.port i four
          ∙ ap (λ r. seen now n.id (record { addr = v4 ip; port = n.addr.port }) ∷ r) back
          ∙ ap
              (λ t. seen now n.id (record n.addr { addr = t }) ∷ map (λ n. seen now n.id n.addr) ns)
              (sym e),
    )

-- Nodes with identifiers of twenty bytes, IPv4 addresses and 16-bit ports are compacted without a panic to 26 bytes each, and whoever decodes the text reads the same identifiers, addresses and ports in the same order.
pub parse_compact_nodes-compact_nodes :
    (now : ℕ) (ns : List Node)
    → All IsCompact ns
    → (bs : Bytes) × (compact_nodes ns ≡ ok bs)
      × (length bs ≡ 26 * length ns)
      × (parse_compact_nodes now (text bs) ≡ map (λ n. seen now n.id n.addr) ns)
unfolding parse_compact_nodes nodes_of
parse_compact_nodes-compact_nodes now ns h =
    let (bs, p, len, back) = compact_nodes-Compacted now ns h in
    let whole : (length bs % 26 == 0) ≡ true = (==_iff (length bs % 26) 0).1 (omega arith) in
    let count : length bs / 26 ≡ length ns = omega arith in
    (bs, p, len, ap (nodes_of now) (to_string-text bs) ∙ rw (whole, count) back)
