-- ===== src/Dht/Handlers/Due.antt =====
-- internal/dht/dht.go: which queries are due a reply.
use jelly_torrent.Base.{
  ℕ, ◌≡◌, Bool, true, false, Option, none, some, List, [], ◌∷◌, ◌++◌, Bytes, codes, bytes_eq,
  if◌then◌else◌,
}
use jelly_torrent.Base.Result.{Result, ok, Panic}
use jelly_torrent.Peer.Addr.{AddrPort}
use jelly_torrent.Dht.NodeId.{NodeId}
use jelly_torrent.Dht.Tokens.{TokenManager}
use jelly_torrent.Dht.Messages.{Message, marshal}
use jelly_torrent.Dht.Handlers.{
  Dht, announced_addr, is_compliant, is_dropped, bytes_from_args, fixed20_from_args,
}
use jelly_torrent.Dht.Handlers.Announced.{sender, accepts}
use jelly_torrent.Dht.Handlers.Stored.{HoldsV4}

abbrev pub Datagrams : Type 0
Datagrams = List (AddrPort × Bytes)

-- One more datagram was sent: a message with the transaction ID of the query, to its sender.
abbrev IsReplied : Message → AddrPort → Datagrams → Datagrams → Type 0
IsReplied msg addr before after =
    (resp : Message) × (bs : Bytes) × (marshal resp ≡ ok bs)
    × (resp.transaction_id ≡ msg.transaction_id)
    × (after ≡ before ++ ((addr, bs) ∷ []))

-- A reply or none, by whether one is due.
abbrev pub Sends : Bool → Message → AddrPort → Datagrams → Datagrams → Type 0
Sends true msg addr before after = IsReplied msg addr before after
Sends false msg addr before after = after ≡ before

-- The handler does not panic, holds IPv4 addresses after it, and replies if a reply is due.
abbrev pub Answers : Bool → Message → AddrPort → Datagrams → Result Panic Dht → Type 0
Answers due msg addr before r =
    (d' : Dht) × (r ≡ ok d') × HoldsV4 d' × Sends due msg addr before d'.sent

abbrev pub has_value : {A : Type 0} → Option A → Bool
has_value none = false
has_value (some a) = true

module _ (mac : Bytes → Bytes → Bytes) (now : ℕ) (ip : Bytes) (port : ℕ) where
  -- Whether an announcement is answered: with an error for a bad token, or when it was stored.
  abbrev pub announce_is_due : Option Bytes → Option Bytes → Message → TokenManager → Bool
  announce_is_due none token msg t = false
  announce_is_due (some i) none msg t = false
  announce_is_due (some i) (some token) msg t =
      if accepts mac now ip port token t
      then has_value (announced_addr msg.args (sender ip port))
      else true

  -- Whether a query has the arguments of its method.
  abbrev pub is_due : Message → TokenManager → Bool
  is_due msg t =
      if bytes_eq msg.query_method (codes "ping")
      then true
      else if bytes_eq msg.query_method (codes "find_node")
      then has_value (bytes_from_args msg.args (codes "target"))
      else if bytes_eq msg.query_method (codes "get_peers")
      then has_value (fixed20_from_args msg.args (codes "info_hash"))
      else if bytes_eq msg.query_method (codes "announce_peer")
      then announce_is_due (fixed20_from_args msg.args (codes "info_hash"))
          (fixed20_from_args msg.args (codes "token")) msg t
      else false

  -- Whether the identifier is given, and its node not dropped.
  abbrev pub id_is_due : (Bytes → ℕ) → Option NodeId → Message → Dht → Bool
  id_is_due crc none msg d = false
  id_is_due crc (some id) msg d =
      if is_dropped d.mode (is_compliant mac now crc d.mode id (sender ip port))
      then false
      else is_due msg d.tokens
