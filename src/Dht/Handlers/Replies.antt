-- ===== src/Dht/Handlers/Replies.antt =====
-- internal/dht/dht.go: the replies can be encoded, and are sent.
use jelly_torrent.Base.{
  pos, ◌≡◌, refl, ap, ◌∙◌, Bool, true, false, List, [], ◌∷◌, ◌++◌, Bytes, codes, if◌then◌else◌,
}
use jelly_torrent.Base.Result.{Result, ok, Panic}
use jelly_torrent.Bencode.{Value, Items, Fields, str, list, dict, end, field}
use jelly_torrent.Bencode.Encode.{
  Entry, encode, encode_fields, encode_items, encode_int, encode_string, write_entries,
  sort_entries,
}
use jelly_torrent.Peer.Addr.{AddrPort}
use jelly_torrent.Dht.Messages.{Message, marshal}
use jelly_torrent.Dht.Handlers.{Dht, reply, write_reply, response, bad_token}
use jelly_torrent.Dht.Handlers.Stored.{HoldsV4}
use jelly_torrent.Dht.Handlers.Due.{Datagrams, Answers}

abbrev pub IsEncodable : Fields → Type 0
IsEncodable fs = (es : List Entry) × (encode_fields fs ≡ ok es)

pub field-IsEncodable :
    (k : Bytes) (v : Value) (fs : Fields)
    → (e : Bytes) × (encode v ≡ ok e)
    → IsEncodable fs
    → IsEncodable (field k v fs)
unfolding encode
field-IsEncodable k v fs (e, p) (es, q) = ((k, e) ∷ es, rw (p, q) refl)

str_encodes : (s : Bytes) → (e : Bytes) × (encode (str s) ≡ ok e)
unfolding encode
str_encodes s = (encode_string s, refl)

dict_encodes : (fs : Fields) → IsEncodable fs → (e : Bytes) × (encode (dict fs) ≡ ok e)
unfolding encode
dict_encodes fs (es, p) = (b'd' ∷ (write_entries (sort_entries es) ++ b'e' ∷ []), rw p refl)

pub str-IsEncodable :
    (k s : Bytes) (fs : Fields) → IsEncodable fs → IsEncodable (field k (str s) fs)
str-IsEncodable k s fs h = field-IsEncodable k (str s) fs (str_encodes s) h

pub end-IsEncodable : IsEncodable end
unfolding encode
end-IsEncodable = ([], refl)

-- The entries of a message with its body.
message_encodes :
    (t y : Bytes) (body : Fields)
    → IsEncodable body
    → (bs : Bytes) × (encode (dict (field (codes "t") (str t) (field (codes "y") (str y) body)))
        ≡ ok bs)
message_encodes t y body h =
    dict_encodes (field (codes "t") (str t) (field (codes "y") (str y) body)) (
      str-IsEncodable (codes "t") t (field (codes "y") (str y) body)
        (str-IsEncodable (codes "y") y body h))

pub response-marshals :
    (msg : Message) (addr : Bytes) (fs : Fields)
    → IsEncodable fs
    → (bs : Bytes) × (marshal (response msg addr fs) ≡ ok bs)
unfolding marshal
response-marshals msg addr fs h =
    let ip_fields = field (codes "ip") (str addr) end in
    message_encodes msg.transaction_id (codes "r") (field (codes "r") (dict fs) ip_fields) (
      field-IsEncodable (codes "r") (dict fs) ip_fields (dict_encodes fs h)
        (str-IsEncodable (codes "ip") addr end end-IsEncodable))

pub list_encodes :
    (xs : Items) → (e : Bytes) × (encode_items xs ≡ ok e) → (e : Bytes) × (encode (list xs) ≡ ok e)
unfolding encode
list_encodes xs (e, p) = (b'l' ∷ (e ++ b'e' ∷ []), rw p refl)

pub bad_token-marshals : (msg : Message) → (bs : Bytes) × (marshal (bad_token msg) ≡ ok bs)
unfolding marshal encode
bad_token-marshals msg =
    let problem = (bad_token msg).error in
    message_encodes msg.transaction_id (codes "e") (field (codes "e") (list problem) end) (
      field-IsEncodable (codes "e") (list problem) end
        (list_encodes problem
          (encode_int (pos 203) ++ (encode_string (codes "bad token") ++ []), refl))
        end-IsEncodable)

reply-sent :
    (resp : Message) (addr : AddrPort) (d : Dht) (bs : Bytes)
    → marshal resp ≡ ok bs
    → reply resp addr d ≡ record d { sent = d.sent ++ ((addr, bs) ∷ []) }
unfolding reply write_reply
reply-sent resp addr d bs e = rw e refl

pub replied :
    (msg resp : Message) (addr : AddrPort) (d : Dht) (r : Result Panic Dht)
    → (bs : Bytes) × (marshal resp ≡ ok bs)
    → resp.transaction_id ≡ msg.transaction_id
    → r ≡ ok (reply resp addr d)
    → HoldsV4 d
    → Answers true msg addr d.sent r
replied msg resp addr d r (bs, m) t e h = (
  record d { sent = d.sent ++ ((addr, bs) ∷ []) },
  e ∙ ap ok (reply-sent resp addr d bs m),
  record { nodes = h.nodes; stored = h.stored },
  (resp, bs, m, t, refl),
)

pub if-Answers :
    (b due due' : Bool) (msg : Message) (addr : AddrPort) (before : Datagrams)
    (x y : Result Panic Dht)
    → Answers due msg addr before x
    → Answers due' msg addr before y
    → Answers (if b then due else due') msg addr before (if b then x else y)
if-Answers true due due' msg addr before x y h k = h
if-Answers false due due' msg addr before x y h k = k
