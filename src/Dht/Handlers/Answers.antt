-- ===== src/Dht/Handlers/Answers.antt =====
-- internal/dht/dht.go: how the queries that come in over IPv4 are answered.
use mathlib.Core.Path.{subst}
use jelly_torrent.Base.{
  ℕ, ◌/◌, ◌%◌, ℤ, ◌≡◌, refl, true, false, Option, none, some, [], ◌∷◌, ◌++◌, Bytes, codes, bytes_eq,
  if◌then◌else◌,
}
use jelly_torrent.Base.Result.{Result, ok, Panic}
use jelly_torrent.Bencode.{Fields, str, end, field, get}
use jelly_torrent.Peer.Addr.{AddrPort}
use jelly_torrent.Dht.NodeId.{NodeId}
use jelly_torrent.Dht.Routing.{Node}
use jelly_torrent.Dht.PeerStore.{PeerStore}
use jelly_torrent.Dht.PeerStore
use jelly_torrent.Dht.RateLimiter.{RateLimiter}
use jelly_torrent.Dht.Tokens.{generate, hash_token}
use jelly_torrent.Dht.Messages.{Message}
use jelly_torrent.Dht.Handlers.{
  Dht, reply, compact_addr, announced_addr, response, bad_token, handle_ping, answer_find_node,
  handle_find_node, answer_get_peers, handle_get_peers, store_peer, answer_announce,
  handle_announce_peer, dispatch, allow_with, allow_query, insert_node, is_compliant, is_dropped,
  is_inserted, answer_query, handle_query, with_port, is_one, int_of, bytes_from_args,
}
use jelly_torrent.Dht.Handlers.Announced.{sender, accepts}
use jelly_torrent.Dht.Handlers.Stored.{HoldsV4, add-V4, get-V4}
use jelly_torrent.Dht.Handlers.Due.{Sends, Answers, has_value, announce_is_due, is_due, id_is_due}
use jelly_torrent.Dht.Handlers.Replies.{
  IsEncodable, str-IsEncodable, end-IsEncodable, response-marshals, bad_token-marshals, replied,
  if-Answers,
}
use jelly_torrent.Dht.Handlers.Kept.{Kept, insert_node-Kept, if-Kept}
use jelly_torrent.Dht.Handlers.Found.{closest-ok, found_fields-ok, IsPeerV4, if-V4}

module _ (mac : Bytes → Bytes → Bytes) (now : ℕ) (ip : Bytes) (port : ℕ) where
  abbrev me : AddrPort
  me = sender ip port

  abbrev compact_me : Bytes
  compact_me = ip ++ (port / 256 ∷ port % 256 ∷ [])

  with_port-V4 : (o : Option ℤ) → IsPeerV4 (with_port me o)
  unfolding with_port
  with_port-V4 none = tt
  with_port-V4 (some n) = (ip, refl)

  announced_addr-V4 : (args : Fields) → IsPeerV4 (announced_addr args me)
  unfolding announced_addr
  announced_addr-V4 args =
      if-V4 (is_one (int_of (get args (codes "implied_port")))) (some me)
        (with_port me (int_of (get args (codes "port")))) (ip, refl)
        (with_port-V4 (int_of (get args (codes "port"))))

  -- A response with these entries, after the identifier.
  responds :
      (msg : Message) (d : Dht) (fs : Fields) (r : Result Panic Dht)
      → IsEncodable fs
      → r ≡ ok (reply (response msg compact_me (field (codes "id") (str d.id) fs)) me d)
      → HoldsV4 d
      → Answers true msg me d.sent r
  responds msg d fs r enc e h =
      replied msg (response msg compact_me (field (codes "id") (str d.id) fs)) me d r
        (response-marshals msg compact_me (field (codes "id") (str d.id) fs)
          (str-IsEncodable (codes "id") d.id fs enc))
        refl e h

  handle_ping-Answers :
      (msg : Message) (d : Dht) → HoldsV4 d → Answers true msg me d.sent (handle_ping msg me d)
  unfolding handle_ping compact_addr
  handle_ping-Answers msg d h = responds msg d end _ end-IsEncodable refl h

  answer_find_node-Answers :
      (o : Option NodeId) (msg : Message) (d : Dht)
      → HoldsV4 d
      → Answers (has_value o) msg me d.sent (answer_find_node o msg me d)
  unfolding answer_find_node compact_addr
  answer_find_node-Answers none msg d h = (d, refl, h, refl)
  answer_find_node-Answers (some target) msg d h =
      let (bs, e) = closest-ok target d h in
      responds msg d (field (codes "nodes") (str bs) end) _
        (str-IsEncodable (codes "nodes") bs end end-IsEncodable) (rw e refl) h

  answer_get_peers-Answers :
      (o : Option Bytes) (msg : Message) (d : Dht)
      → HoldsV4 d
      → Answers (has_value o) msg me d.sent (answer_get_peers mac now o msg me d)
  unfolding answer_get_peers compact_addr generate hash_token
  answer_get_peers-Answers none msg d h = (d, refl, h, refl)
  answer_get_peers-Answers (some info_hash) msg d h =
      let ps = PeerStore.get info_hash now d.peers in
      let (fs, e, enc) = found_fields-ok info_hash ps d (get-V4 info_hash now d.peers h.stored) h in
      let token = mac d.tokens.current_secret ip in
      responds msg d (field (codes "token") (str token) fs) _
        (str-IsEncodable (codes "token") token fs enc) (rw e refl) h

  store_peer-Answers :
      (info_hash : Bytes) (o : Option AddrPort) (msg : Message) (d : Dht)
      → IsPeerV4 o
      → HoldsV4 d
      → Answers (has_value o) msg me d.sent (store_peer mac now info_hash o msg me d)
  unfolding store_peer compact_addr
  store_peer-Answers info_hash none msg d p h = (d, refl, h, refl)
  store_peer-Answers info_hash (some a) msg d p h =
      responds msg (record d { peers = PeerStore.add info_hash a now d.peers }) end _
        end-IsEncodable refl
        (record { nodes = h.nodes; stored = add-V4 info_hash a now d.peers p h.stored })

  answer_announce-Answers :
      (i t : Option Bytes) (msg : Message) (d : Dht)
      → HoldsV4 d
      → Answers
          (announce_is_due mac now ip port i t msg d.tokens)
          msg
          me
          d.sent
          (answer_announce mac now i t msg me d)
  unfolding answer_announce
  answer_announce-Answers none t msg d h = (d, refl, h, refl)
  answer_announce-Answers (some i) none msg d h = (d, refl, h, refl)
  answer_announce-Answers (some i) (some s) msg d h =
      if-Answers (accepts mac now ip port s d.tokens) (has_value (announced_addr msg.args me)) true
        msg me d.sent _ _
        (store_peer-Answers i (announced_addr msg.args me) msg d (announced_addr-V4 msg.args) h)
        (replied msg (bad_token msg) me d _ (bad_token-marshals msg) refl refl h)

  dispatch-Answers :
      (msg : Message) (d : Dht)
      → HoldsV4 d
      → Answers (is_due mac now ip port msg d.tokens) msg me d.sent (dispatch mac now msg me d)
  unfolding dispatch handle_find_node handle_get_peers handle_announce_peer
  dispatch-Answers msg d h =
      if-Answers (bytes_eq msg.query_method (codes "ping")) _ _ msg me d.sent _ _
        (handle_ping-Answers msg d h)
        (if-Answers (bytes_eq msg.query_method (codes "find_node")) _ _ msg me d.sent _ _
          (answer_find_node-Answers _ msg d h)
          (if-Answers (bytes_eq msg.query_method (codes "get_peers")) _ _ msg me d.sent _ _
            (answer_get_peers-Answers _ msg d h)
            (if-Answers (bytes_eq msg.query_method (codes "announce_peer")) _ _ msg me d.sent _ _
              (answer_announce-Answers _ _ msg d h) (d, refl, h, refl))))

  -- The same from a state that holds the same secrets and has sent the same.
  dispatch-from :
      (msg : Message) (d d' : Dht)
      → Kept d d'
      → Answers (is_due mac now ip port msg d.tokens) msg me d.sent (dispatch mac now msg me d')
  dispatch-from msg d d' (h, t, s) =
      subst
        (λ sent.
          Answers (is_due mac now ip port msg d.tokens) msg me sent (dispatch mac now msg me d'))
        s
        (subst
          (λ tokens.
            Answers (is_due mac now ip port msg tokens) msg me d'.sent (dispatch mac now msg me d'))
          t (dispatch-Answers msg d' h))

  allow_with-Kept :
      (o : Option RateLimiter) (d : Dht)
      → HoldsV4 d
      → HoldsV4 (allow_with mac now o me d).1 × ((allow_with mac now o me d).1.sent ≡ d.sent)
  unfolding allow_with
  allow_with-Kept none d h = (h, refl)
  allow_with-Kept (some rl) d h = (record { nodes = h.nodes; stored = h.stored }, refl)

  module _ (crc : Bytes → ℕ) where
    answer_query-Answers :
        (o : Option NodeId) (msg : Message) (d : Dht)
        → HoldsV4 d
        → Answers
            (id_is_due mac now ip port crc o msg d)
            msg
            me
            d.sent
            (answer_query mac now crc o msg me d)
    unfolding answer_query
    answer_query-Answers none msg d h = (d, refl, h, refl)
    answer_query-Answers (some id) msg d h =
        let compliant = is_compliant mac now crc d.mode id me in
        let node : Node = record {
          id = id;
          addr = me;
          last_seen = now;
          compliant = compliant;
          fail_count = 0;
        } in
        if-Answers (is_dropped d.mode compliant) false _ msg me d.sent _ _ (d, refl, h, refl)
          (dispatch-from msg d _ (
            if-Kept (is_inserted d.mode compliant) d (insert_node node d) d
              (insert_node-Kept node d (ip, refl) h) (h, refl, refl)))

    -- A node that holds IPv4 addresses only, in its table and its store, handles every query that comes from an IPv4 address without a panic, whatever the query says, and holds IPv4 addresses only after it. It sends one message, with the transaction ID of the query and to its sender, if the sender is within the rate limit, gives an identifier that the mode does not drop, and gives the arguments of a method that the node knows (an announcement with a bad token among them); and else it sends nothing.
    pub handle_query-Answers :
        (msg : Message) (d : Dht)
        → HoldsV4 d
        → (d' : Dht) × (handle_query mac now crc msg (sender ip port) d ≡ ok d')
          × HoldsV4 d'
          × Sends
              (if (allow_query mac now (sender ip port) d).0
                then id_is_due mac now ip port crc
                    (bytes_from_args msg.args (codes "id"))
                    msg
                    (allow_query mac now (sender ip port) d).1
                else false)
              msg
              (sender ip port)
              d.sent
              d'.sent
    unfolding handle_query allow_query
    handle_query-Answers msg d h =
        let (allowed, d') = allow_with mac now d.rate_limiter me d in
        let (h', same) = allow_with-Kept d.rate_limiter d h in
        let id = bytes_from_args msg.args (codes "id") in
        subst
          (λ sent.
            Answers (if allowed then id_is_due mac now ip port crc id msg d' else false) msg me sent
              (handle_query mac now crc msg me d))
          same
          (if-Answers allowed _ false msg me d'.sent _ _ (answer_query-Answers id msg d' h')
            (d', refl, h', refl))
