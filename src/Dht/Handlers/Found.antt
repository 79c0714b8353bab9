-- ===== src/Dht/Handlers/Found.antt =====
-- internal/dht/dht.go: what is found has a compact form, where all addresses are IPv4 ones.
use jelly_torrent.Base.{
  ◌≡◌, refl, Bool, true, false, Option, none, some, List, [], ◌∷◌, Bytes, codes, All, if◌then◌else◌,
}
use jelly_torrent.Base.Result.{ok}
use jelly_torrent.Bencode.{Fields, str, list, end, field}
use jelly_torrent.Peer.Addr.{AddrPort}
use jelly_torrent.Dht.NodeId.{NodeId}
use jelly_torrent.Dht.Routing.Bucket.{capacity}
use jelly_torrent.Dht.Routing.Table.Closest.{find_closest}
use jelly_torrent.Dht.Routing.Table.Nodes.{find_closest-All}
use jelly_torrent.Dht.Handlers.{Dht, compact_nodes, found_fields}
use jelly_torrent.Dht.Handlers.Stored.{
  HoldsV4, IsNodeV4, IsIpv4, compact_nodes-ok, compact_values-ok,
}
use jelly_torrent.Dht.Handlers.Replies.{
  IsEncodable, field-IsEncodable, str-IsEncodable, end-IsEncodable, list_encodes,
}

pub closest-ok :
    (target : NodeId) (d : Dht)
    → HoldsV4 d
    → (bs : Bytes) × (compact_nodes (find_closest target capacity d.table) ≡ ok bs)
closest-ok target d h =
    compact_nodes-ok (find_closest target capacity d.table)
      (find_closest-All IsNodeV4 target capacity d.table h.nodes)

pub found_fields-ok :
    (info_hash : Bytes) (ps : List AddrPort) (d : Dht)
    → All IsIpv4 ps
    → HoldsV4 d
    → (fs : Fields) × (found_fields info_hash ps d ≡ ok fs) × IsEncodable fs
unfolding found_fields
found_fields-ok info_hash [] d p h =
    let (bs, e) = closest-ok info_hash d h in
    (
      field (codes "nodes") (str bs) end,
      rw e refl,
      str-IsEncodable (codes "nodes") bs end end-IsEncodable,
    )
found_fields-ok info_hash (a ∷ ps) d p h =
    let (xs, e, w) = compact_values-ok (a ∷ ps) p in
    (
      field (codes "values") (list xs) end,
      rw e refl,
      field-IsEncodable (codes "values") (list xs) end (list_encodes xs w) end-IsEncodable,
    )

abbrev pub IsPeerV4 : Option AddrPort → Type 0
IsPeerV4 none = Unit
IsPeerV4 (some a) = IsIpv4 a

pub if-V4 :
    (b : Bool) (x y : Option AddrPort) → IsPeerV4 x → IsPeerV4 y → IsPeerV4 (if b then x else y)
if-V4 true x y h k = h
if-V4 false x y h k = k
