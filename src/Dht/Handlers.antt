-- ===== src/Dht/Handlers.antt =====
-- internal/dht/dht.go: the queries that a node answers.
pub mod Announced
pub mod Stored
pub mod Due
pub mod Replies
pub mod Found
pub mod Kept
pub mod Answers
use jelly_torrent.Base.{
  ℕ, ◌+◌, ◌-◌, ◌*◌, ◌/◌, ◌%◌, Bool, true, false, ◌||◌, not, Option, none, some, List, [], ◌∷◌, ◌++◌,
  Bytes, codes, length, bytes_eq, ◌==◌, if◌then◌else◌, ℤ, pos, negsuc, replicate, take, drop,
  get_or, eq_ℤ, zero, suc,
}
use jelly_torrent.Base.Result.{Result, ok, err, ◌>>=◌, Panic, as4_of_ipv6}
use jelly_torrent.Bencode.{
  Value, str, bytes, int, list, dict, Items, nil, cons, Fields, end, field, get,
}
use jelly_torrent.Bencode.Encode.{EncodeError}
use jelly_torrent.Peer.Addr.{v4, mapped, v6, Addr, AddrPort, as4}
use jelly_torrent.Dht.NodeId.{NodeId, from_bytes}
use jelly_torrent.Dht.Routing.{Node}
use jelly_torrent.Dht.Routing.Bucket.{capacity}
use jelly_torrent.Dht.Routing.Table.{RoutingTable}
use jelly_torrent.Dht.Routing.Table
use jelly_torrent.Dht.Routing.Table.Closest.{find_closest}
use jelly_torrent.Dht.PeerStore.{PeerStore}
use jelly_torrent.Dht.PeerStore
use jelly_torrent.Dht.RateLimiter.{RateLimiter, allow}
use jelly_torrent.Dht.Tokens.{TokenManager, generate, validate}
use jelly_torrent.Dht.Messages.{Message, to_string, marshal}
use jelly_torrent.Dht.Bep42.{validate_node_id}

pub data Bep42Mode : Type 0 where
  bep42_off bep42_log bep42_enforce bep42_table_only : Bep42Mode

-- `sent` are the datagrams that were written, and `to_ping` the oldest nodes of full buckets, each with
-- the node that takes its place if it does not answer.
pub record Dht : Type 0 where
  pub id : NodeId
  pub table : RoutingTable
  pub tokens : TokenManager
  pub peers : PeerStore
  pub rate_limiter : Option RateLimiter
  pub mode : Bep42Mode
  pub sent : List (AddrPort × Bytes)
  pub to_ping : List (Node × Node)

-- The bytes of an address, by which the rate limiter knows it.
unfoldable pub ip_bytes : Addr → Bytes
ip_bytes (v4 ip) = ip
ip_bytes (mapped ip) = replicate 10 0 ++ (255 ∷ 255 ∷ ip)
ip_bytes (v6 ip) = ip

-- `As4`, and `PutUint16` of the port.
unfoldable pub compact_addr : AddrPort → Result Panic Bytes
compact_addr a = do ip ← as4 a.addr; ok (ip ++ (a.port / 256 ∷ a.port % 256 ∷ []))

unfoldable pub compact_nodes : List Node → Result Panic Bytes
unfolding compact_addr
compact_nodes [] = ok []
compact_nodes (n ∷ nodes) = do
  addr ← compact_addr n.addr
  more ← compact_nodes nodes
  ok (n.id ++ (addr ++ more))

unfoldable pub compact_values : List AddrPort → Result Panic Items
unfolding compact_addr
compact_values [] = ok nil
compact_values (a ∷ addrs) = do
  addr ← compact_addr a
  more ← compact_values addrs
  ok (cons (str addr) more)

-- The arguments; the handlers do not tell the errors apart.
unfoldable pub id_of : Option Bytes → Option NodeId
unfolding from_bytes
id_of none = none
id_of (some s) = from_bytes s

unfoldable pub bytes_of : Option Value → Option Bytes
unfolding to_string
bytes_of none = none
bytes_of (some v) = to_string v

unfoldable pub bytes_from_args : Fields → Bytes → Option NodeId
unfolding get id_of bytes_of
bytes_from_args args key = id_of (bytes_of (get args key))

unfoldable pub fixed20 : Option Bytes → Option Bytes
fixed20 none = none
fixed20 (some s) = if length s == 20 then some s else none

unfoldable pub fixed20_from_args : Fields → Bytes → Option Bytes
unfolding get fixed20 bytes_of
fixed20_from_args args key = fixed20 (bytes_of (get args key))

unfoldable pub int_of : Option Value → Option ℤ
int_of (some (int n)) = some n
int_of _ = none

-- `uint16(n)`
unfoldable pub uint16 : ℤ → ℕ
uint16 (pos n) = n % 65536
uint16 (negsuc n) = 65535 - n % 65536

unfoldable pub with_port : AddrPort → Option ℤ → Option AddrPort
unfolding uint16
with_port addr none = none
with_port addr (some n) = some (record addr { port = uint16 n })

abbrev pub is_one : Option ℤ → Bool
is_one none = false
is_one (some n) = eq_ℤ n (pos 1)

-- The address that is announced; `none` when the port is missing.
unfoldable pub announced_addr : Fields → AddrPort → Option AddrPort
unfolding get int_of with_port
announced_addr args addr =
    if is_one (int_of (get args (codes "implied_port")))
    then some addr
    else with_port addr (int_of (get args (codes "port")))

-- `Reply`; an error of `Marshal` sends nothing.
unfoldable pub write_reply : Result EncodeError Bytes → AddrPort → Dht → Dht
write_reply (ok bs) addr d = record d { sent = d.sent ++ ((addr, bs) ∷ []) }
write_reply (err e) addr d = d

unfoldable pub reply : Message → AddrPort → Dht → Dht
unfolding marshal write_reply
reply resp addr d = write_reply (marshal resp) addr d

abbrev pub response : Message → Bytes → Fields → Message
response msg ip fs = record {
  transaction_id = msg.transaction_id;
  message_type = codes "r";
  query_method = [];
  args = end;
  response = fs;
  error = nil;
  ip = some ip;
}

abbrev pub bad_token : Message → Message
bad_token msg = record {
  transaction_id = msg.transaction_id;
  message_type = codes "e";
  query_method = [];
  args = end;
  response = end;
  error = cons (int (pos 203)) (cons (str (codes "bad token")) nil);
  ip = none;
}

unfoldable pub handle_ping : Message → AddrPort → Dht → Result Panic Dht
unfolding compact_addr reply
handle_ping msg addr d = do
  ip ← compact_addr addr
  ok (reply (response msg ip (field (codes "id") (str d.id) end)) addr d)

unfoldable pub answer_find_node : Option NodeId → Message → AddrPort → Dht → Result Panic Dht
unfolding find_closest compact_addr compact_nodes reply
answer_find_node none msg addr d = ok d
answer_find_node (some target) msg addr d = do
  ip ← compact_addr addr
  nodes ← compact_nodes (find_closest target capacity d.table)
  ok (
      reply
        (response msg ip (field (codes "id") (str d.id) (field (codes "nodes") (str nodes) end)))
        addr d)

unfoldable pub handle_find_node : Message → AddrPort → Dht → Result Panic Dht
unfolding answer_find_node bytes_from_args
handle_find_node msg addr d =
    answer_find_node (bytes_from_args msg.args (codes "target")) msg addr d

-- The peers of an infohash, or else the nodes that are closest to it.
unfoldable pub found_fields : Bytes → List AddrPort → Dht → Result Panic Fields
unfolding find_closest compact_nodes compact_values
found_fields info_hash [] d = do
  nodes ← compact_nodes (find_closest info_hash capacity d.table)
  ok (field (codes "nodes") (str nodes) end)
found_fields info_hash (p ∷ ps) d = do
  values ← compact_values (p ∷ ps)
  ok (field (codes "values") (list values) end)

unfoldable pub note_oldest : Node → Option Node × Bool → Dht → Dht
note_oldest node (some oldest, false) d = record d { to_ping = d.to_ping ++ ((oldest, node) ∷ []) }
note_oldest node _ d = d

unfoldable pub insert_node : Node → Dht → Dht
unfolding Table.insert note_oldest
insert_node node d =
    let (answer, table) = Table.insert node d.table in
    note_oldest node answer (record d { table = table })

-- What becomes of a query, by the mode and whether the sender is compliant: it is dropped, or the
-- sender goes to the table, or not.
unfoldable pub is_dropped : Bep42Mode → Bool → Bool
is_dropped bep42_enforce compliant = not compliant
is_dropped _ compliant = false

unfoldable pub is_inserted : Bep42Mode → Bool → Bool
is_inserted bep42_table_only compliant = compliant
is_inserted _ compliant = true

-- `mac` is HMAC-SHA-1, and `now` the time.
module _ (mac : Bytes → Bytes → Bytes) (now : ℕ) where
  unfoldable pub answer_get_peers : Option Bytes → Message → AddrPort → Dht → Result Panic Dht
  unfolding generate compact_addr PeerStore.get found_fields reply
  answer_get_peers none msg addr d = ok d
  answer_get_peers (some info_hash) msg addr d = do
    token ← generate mac addr.addr d.tokens
    ip ← compact_addr addr
    found ← found_fields info_hash (PeerStore.get info_hash now d.peers) d
    ok (
        reply
          (response msg ip
            (field (codes "id") (str d.id) (field (codes "token") (str token) found)))
          addr d)

  unfoldable pub handle_get_peers : Message → AddrPort → Dht → Result Panic Dht
  unfolding answer_get_peers fixed20_from_args
  handle_get_peers msg addr d =
      answer_get_peers (fixed20_from_args msg.args (codes "info_hash")) msg addr d

  unfoldable pub store_peer : Bytes → Option AddrPort → Message → AddrPort → Dht → Result Panic Dht
  unfolding PeerStore.add compact_addr reply
  store_peer info_hash none msg addr d = ok d
  store_peer info_hash (some peer_addr) msg addr d = do
    ip ← compact_addr addr
    ok (
        reply (response msg ip (field (codes "id") (str d.id) end)) addr
          (record d { peers = PeerStore.add info_hash peer_addr now d.peers }))

  -- With the infohash and the token of the arguments.
  unfoldable pub answer_announce :
      Option Bytes → Option Bytes → Message → AddrPort → Dht → Result Panic Dht
  unfolding validate reply store_peer announced_addr
  answer_announce none token msg addr d = ok d
  answer_announce (some info_hash) none msg addr d = ok d
  answer_announce (some info_hash) (some token) msg addr d = do
    valid ← validate mac addr.addr token d.tokens
    (if valid
        then store_peer info_hash (announced_addr msg.args addr) msg addr d
        else ok (reply (bad_token msg) addr d))

  unfoldable pub handle_announce_peer : Message → AddrPort → Dht → Result Panic Dht
  unfolding answer_announce fixed20_from_args
  handle_announce_peer msg addr d =
      answer_announce (fixed20_from_args msg.args (codes "info_hash"))
        (fixed20_from_args msg.args (codes "token")) msg addr d

  -- The switch on the method; another one gets no answer.
  unfoldable pub dispatch : Message → AddrPort → Dht → Result Panic Dht
  unfolding handle_ping handle_find_node handle_get_peers handle_announce_peer bytes_eq
  dispatch msg addr d =
      if bytes_eq msg.query_method (codes "ping")
      then handle_ping msg addr d
      else if bytes_eq msg.query_method (codes "find_node")
      then handle_find_node msg addr d
      else if bytes_eq msg.query_method (codes "get_peers")
      then handle_get_peers msg addr d
      else if bytes_eq msg.query_method (codes "announce_peer")
      then handle_announce_peer msg addr d
      else ok d

  -- The window of the sender, when there is one.
  unfoldable pub allow_with : Option RateLimiter → AddrPort → Dht → Bool × Dht
  unfolding allow ip_bytes
  allow_with none addr d = (true, d)
  allow_with (some rl) addr d =
      let (allowed, rl') = allow (ip_bytes addr.addr) now rl in
      (allowed, record d { rate_limiter = some rl' })

  unfoldable pub allow_query : AddrPort → Dht → Bool × Dht
  unfolding allow_with
  allow_query addr d = allow_with d.rate_limiter addr d

  module _ (crc : Bytes → ℕ) where
    unfoldable pub is_compliant : Bep42Mode → NodeId → AddrPort → Bool
    unfolding validate_node_id
    is_compliant bep42_off id addr = true
    is_compliant _ id addr = validate_node_id crc id addr.addr

    unfoldable pub answer_query : Option NodeId → Message → AddrPort → Dht → Result Panic Dht
    unfolding is_compliant is_dropped is_inserted insert_node dispatch
    answer_query none msg addr d = ok d
    answer_query (some sender_id) msg addr d =
        let compliant = is_compliant d.mode sender_id addr in
        let node : Node = record {
          id = sender_id;
          addr = addr;
          last_seen = now;
          compliant = compliant;
          fail_count = 0;
        } in
        if is_dropped d.mode compliant
        then ok d
        else dispatch msg addr (if is_inserted d.mode compliant then insert_node node d else d)

    unfoldable pub handle_query : Message → AddrPort → Dht → Result Panic Dht
    unfolding allow_query answer_query bytes_from_args
    handle_query msg addr d =
        let (allowed, d') = allow_query addr d in
        if allowed then answer_query (bytes_from_args msg.args (codes "id")) msg addr d' else ok d'
