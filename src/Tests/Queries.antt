-- ===== src/Tests/Queries.antt =====
-- internal/dht: tokens, messages and queries, runs at concrete inputs.
use jelly_torrent.Base.{
  List, map, zero, suc, ◌≡◌, true, ◌||◌, [], ◌∷◌, ◌++◌, Bytes, codes, bytes_eq,
}
use jelly_torrent.Base.{
  false, if◌then◌else◌, refl, replicate, ℕ, ◌+◌, ◌-◌, ◌*◌, ◌<◌, ◌≤◌, ◌⊎◌, none, some, pos, length,
  max_int, arith,
}
use jelly_torrent.Base.Result.{ok}
use jelly_torrent.Bencode.{str, int, nil, end, field}
use jelly_torrent.Dht.NodeId.{NodeId}
use jelly_torrent.Dht.Routing.Table.{new_routing_table, num_buckets}
use jelly_torrent.Dht.Routing.Table.Nodes.{AllNodes}
use jelly_torrent.Dht.PeerStore.{new_peer_store, get}
use jelly_torrent.Dht.PeerStore.Laws.{IsListed}
use jelly_torrent.Dht.Messages.{Message, marshal, unmarshal}
use jelly_torrent.Dht.Messages.RoundTrip.{IsMessage, normal_message, query, unmarshal-marshal}
use jelly_torrent.Dht.Bep42.{validate_node_id, generate_compliant_id}
use jelly_torrent.Dht.Bep42.Laws.{validate-generate_compliant_id}
use jelly_torrent.Bencode.Texts.{text}
use jelly_torrent.Dht.Routing.{Node}
use jelly_torrent.Dht.Responses.{seen, parse_compact_nodes}
use jelly_torrent.Dht.Responses.RoundTrip.{parse_compact_nodes-compact_nodes}
use jelly_torrent.Dht.Handlers.{
  compact_nodes, Dht, bep42_off, handle_announce_peer, fixed20_from_args, announced_addr,
}
use jelly_torrent.Dht.Handlers.{
  handle_query, allow_query, bytes_from_args, is_dropped, is_compliant,
}
use jelly_torrent.Dht.Handlers.Stored.{HoldsV4, IsNodeV4}
use jelly_torrent.Dht.Handlers.Answers.{handle_query-Answers}
use jelly_torrent.Dht.Handlers.Due.{Sends, id_is_due}
use jelly_torrent.Dht.Handlers.Announced.{
  sender, IsToken, handle_announce_peer-IsGuarded, get-handle_announce_peer,
}
use jelly_torrent.Peer.Addr.{v4}
use jelly_torrent.Dht.Tokens.{TokenManager, new_tokens, generate, validate, rotate}
use jelly_torrent.Dht.Tokens.Laws.{validate-generate}
use jelly_torrent.Dht.Transactions.{TransactionManager, new_transactions, start, complete, cancel}
use jelly_torrent.Dht.Transactions.Laws.{Answered, GivenUp, fresh, added, complete-Answered}

abbrev join_bytes : Bytes → Bytes → Bytes
join_bytes secret msg = secret ++ msg

abbrev loopback : Bytes
loopback = 127 ∷ 0 ∷ 0 ∷ 1 ∷ []

abbrev tokens : TokenManager
tokens = new_tokens (codes "first")

validate-generate_example :
    (token : Bytes) × (generate join_bytes (v4 loopback) tokens ≡ ok token)
    × (validate join_bytes (v4 loopback) token tokens ≡ ok true)
    × (validate join_bytes (v4 loopback) token (rotate (codes "second") tokens) ≡ ok true)
    × (validate join_bytes
          (v4 loopback)
          token
          (rotate (codes "third") (rotate (codes "second") tokens))
        ≡ ok (
            bytes_eq (join_bytes (codes "third") loopback) token
            || bytes_eq (join_bytes (codes "second") loopback) token))
validate-generate_example =
    validate-generate join_bytes loopback tokens (codes "second") (codes "third")

abbrev asked_ping : TransactionManager Bytes
asked_ping = (start (codes "aa") new_transactions).2

complete-Answered_example :
    Answered (codes "aa") (complete (codes "aa") (codes "pong") asked_ping)
    × GivenUp (codes "aa") (cancel (codes "aa") asked_ping)
complete-Answered_example =
    complete-Answered (codes "aa") (codes "pong") asked_ping
      (added (codes "aa") new_transactions fresh)

abbrev ping : Message
ping = record {
  transaction_id = codes "aa";
  message_type = codes "q";
  query_method = codes "ping";
  args = field (codes "id") (str (replicate 20 255)) end;
  response = end;
  error = nil;
  ip = none;
}

ping-IsMessage : IsMessage ping
ping-IsMessage =
    query (codes "aa") (codes "ping") none (field (codes "id") (str (replicate 20 255)) end)
      (tt, (tt, tt)) (omega arith)

unmarshal-marshal_example :
    (e : Bytes) × (marshal ping ≡ ok e)
    × (length e ≤ max_int → unmarshal e ≡ ok (normal_message ping))
unmarshal-marshal_example = unmarshal-marshal ping-IsMessage

abbrev sum_bytes : Bytes → ℕ
sum_bytes [] = 0
sum_bytes (b ∷ bs) = b + 256 * sum_bytes bs

validate-generate_compliant_id_example :
    (id : NodeId) × (generate_compliant_id sum_bytes (replicate 20 9) (v4 loopback) ≡ some id)
    × (length id ≡ 20)
    × (validate_node_id sum_bytes id (v4 loopback) ≡ true)
validate-generate_compliant_id_example =
    validate-generate_compliant_id sum_bytes (replicate 20 9) loopback refl

-- A hash of twenty bytes.
abbrev twenty : Bytes → Bytes → Bytes
twenty secret msg = replicate 20 (sum_bytes secret)

abbrev dht : Dht
dht = record {
  id = replicate 20 1;
  table = new_routing_table (replicate 20 1);
  tokens = new_tokens (3 ∷ []);
  peers = new_peer_store 100;
  rate_limiter = none;
  mode = bep42_off;
  sent = [];
  to_ping = [];
}

abbrev announcement : Bytes → Message
announcement token = record ping {
  query_method = codes "announce_peer";
  args = field (codes "id") (str (replicate 20 2)) (
      field (codes "info_hash") (str (replicate 20 7))
        (field (codes "port") (int (pos 6881)) (field (codes "token") (str token) end)));
}

handle_announce_peer-IsGuarded_example :
    (d' : Dht) × (handle_announce_peer twenty 5
        (announcement (codes "forged"))
        (sender loopback 4000)
        dht
      ≡ ok d')
    × ((d'.peers ≡ dht.peers)
        ⊎ ((s : Bytes) × (fixed20_from_args (announcement (codes "forged")).args (codes "token")
              ≡ some s)
            × IsToken twenty loopback s dht.tokens))
handle_announce_peer-IsGuarded_example =
    handle_announce_peer-IsGuarded twenty 5 loopback 4000 (announcement (codes "forged")) dht

abbrev good : Message
good = announcement (replicate 20 3)

good_args :
    (fixed20_from_args good.args (codes "info_hash") ≡ some (replicate 20 7))
    × (fixed20_from_args good.args (codes "token") ≡ some (replicate 20 3))
    × (generate twenty (v4 loopback) dht.tokens ≡ ok (replicate 20 3))
    × (announced_addr good.args (sender loopback 4000) ≡ some (sender loopback 6881))
unfolding fixed20_from_args generate announced_addr new_tokens bytes_eq
good_args = (refl, refl, refl, refl)

long_lived : 90 - 5 < dht.peers.ttl
unfolding new_peer_store
long_lived = omega arith

get-handle_announce_peer_example :
    (d' : Dht) × (handle_announce_peer twenty 5 good (sender loopback 4000) dht ≡ ok d')
    × IsListed (sender loopback 6881) (get (replicate 20 7) 90 d'.peers)
    × (bytes_eq (replicate 20 7) (replicate 20 8) ≡ false
        → get (replicate 20 8) 90 d'.peers ≡ get (replicate 20 8) 90 dht.peers)
get-handle_announce_peer_example =
    let (i, t, g, a) = good_args in
    get-handle_announce_peer twenty 5 loopback 4000 (replicate 20 7) (replicate 20 3)
      (replicate 20 8) (sender loopback 6881) good dht 90 long_lived i t g a

-- A reply is due to it.
good_is_due :
    id_is_due twenty 5 loopback 4000 sum_bytes (bytes_from_args good.args (codes "id")) good dht
    ≡ true
unfolding bytes_from_args is_dropped is_compliant fixed20_from_args announced_addr new_tokens
    bytes_eq
good_is_due = refl

no_nodes : (n : ℕ) → AllNodes IsNodeV4 (replicate n [])
no_nodes zero = tt
no_nodes (suc n) = (tt, no_nodes n)

dht-HoldsV4 : HoldsV4 dht
unfolding new_routing_table new_peer_store
dht-HoldsV4 = record { nodes = no_nodes num_buckets; stored = tt }

handle_query-Answers_example :
    (d' : Dht) × (handle_query twenty 5 sum_bytes good (sender loopback 4000) dht ≡ ok d')
    × HoldsV4 d'
    × Sends
        (if (allow_query twenty 5 (sender loopback 4000) dht).0
          then id_is_due twenty 5 loopback 4000 sum_bytes
              (bytes_from_args good.args (codes "id"))
              good
              (allow_query twenty 5 (sender loopback 4000) dht).1
          else false)
        good
        (sender loopback 4000)
        []
        d'.sent
handle_query-Answers_example =
    handle_query-Answers twenty 5 loopback 4000 sum_bytes good dht dht-HoldsV4

abbrev two_nodes : List Node
two_nodes =
    seen 1 (replicate 20 5) (sender loopback 6881)
    ∷ seen 2 (replicate 20 6) (sender loopback 6882)
    ∷ []

parse_compact_nodes-compact_nodes_example :
    (bs : Bytes) × (compact_nodes two_nodes ≡ ok bs)
    × (length bs ≡ 26 * length two_nodes)
    × (parse_compact_nodes 9 (text bs) ≡ map (λ n. seen 9 n.id n.addr) two_nodes)
parse_compact_nodes-compact_nodes_example =
    parse_compact_nodes-compact_nodes 9 two_nodes (
      (refl, (loopback, refl, refl, omega arith)),
      ((refl, (loopback, refl, refl, omega arith)), tt),
    )
