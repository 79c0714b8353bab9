-- ===== src/Dht/Messages.antt =====
-- internal/dht/krpc/message.go: the messages of the DHT.
pub mod RoundTrip
use jelly_torrent.Base.{
  Bool, true, false, Option, none, some, [], Bytes, codes, bytes_eq, if◌then◌else◌,
}
use jelly_torrent.Base.Result.{Result, ok, err, ◌>>=◌}
use jelly_torrent.Bencode.{Value, str, bytes, list, dict, Items, nil, Fields, end, field, get}
use jelly_torrent.Bencode.Encode.{EncodeError, encode}
use jelly_torrent.Bencode.Decode.{DecodeError, Outcome, done, failed, out_of_fuel, decode}

-- A map that is nil reads and is written like an empty one.
pub record Message : Type 0 where
  pub transaction_id : Bytes
  pub message_type : Bytes
  pub query_method : Bytes
  pub args : Fields
  pub response : Fields
  pub error : Items
  pub ip : Option Bytes

-- The errors name the key.
pub data MessageError : Type 0 where
  bad_bencoding : DecodeError → MessageError
  endless expected_dictionary : MessageError
  missing invalid not_a_dictionary not_a_list unknown_type : Bytes → MessageError

unfoldable pub to_string : Value → Option Bytes
to_string (str s) = some s
to_string (bytes s) = some s
to_string _ = none

unfoldable pub text_of : Bytes → Option Value → Result MessageError Bytes
unfolding to_string
text_of key none = err (missing key)
text_of key (some v) = elim (to_string v) [ none ↦ err (invalid key) | some s ↦ ok s ]

unfoldable pub fields_of : Bytes → Option Value → Result MessageError Fields
fields_of key none = err (missing key)
fields_of key (some (dict d)) = ok d
fields_of key (some v) = err (not_a_dictionary key)

unfoldable pub items_of : Bytes → Option Value → Result MessageError Items
items_of key none = err (missing key)
items_of key (some (list xs)) = ok xs
items_of key (some v) = err (not_a_list key)

-- The optional address of the one who asked.
unfoldable pub ip_of : Option Value → Option Bytes
unfolding to_string
ip_of none = none
ip_of (some v) = to_string v

unfoldable pub read_query : Fields → Message → Result MessageError Message
unfolding get text_of fields_of
read_query d m = do
  q ← text_of (codes "q") (get d (codes "q"))
  a ← fields_of (codes "a") (get d (codes "a"))
  ok (record m { query_method = q; args = a })

unfoldable pub read_response : Fields → Message → Result MessageError Message
unfolding get fields_of
read_response d m = do r ← fields_of (codes "r") (get d (codes "r")); ok (record m { response = r })

unfoldable pub read_error : Fields → Message → Result MessageError Message
unfolding get items_of
read_error d m = do e ← items_of (codes "e") (get d (codes "e")); ok (record m { error = e })

-- The switch on the type.
unfoldable pub read_body : Fields → Message → Result MessageError Message
unfolding read_query read_response read_error bytes_eq
read_body d m =
    if bytes_eq m.message_type (codes "q")
    then read_query d m
    else if bytes_eq m.message_type (codes "r")
    then read_response d m
    else if bytes_eq m.message_type (codes "e")
    then read_error d m
    else err (unknown_type m.message_type)

unfoldable pub read_fields : Fields → Result MessageError Message
unfolding get text_of ip_of read_body
read_fields d = do
  t ← text_of (codes "t") (get d (codes "t"))
  y ← text_of (codes "y") (get d (codes "y"))
  read_body d (record {
    transaction_id = t;
    message_type = y;
    query_method = [];
    args = end;
    response = end;
    error = nil;
    ip = ip_of (get d (codes "ip"));
  })

unfoldable pub read_message : Outcome Value → Result MessageError Message
unfolding read_fields
read_message (failed e) = err (bad_bencoding e)
read_message out_of_fuel = err endless
read_message (done (dict d)) = read_fields d
read_message (done v) = err expected_dictionary

unfoldable pub unmarshal : Bytes → Result MessageError Message
unfolding read_message decode
unmarshal data_bytes = read_message (decode data_bytes)

unfoldable pub ip_fields : Option Bytes → Fields
ip_fields none = end
ip_fields (some ip) = field (codes "ip") (str ip) end

-- The entries in the order in which `Marshal` writes them to the map.
unfoldable pub body_fields : Message → Fields
unfolding ip_fields bytes_eq
body_fields m =
    let rest = ip_fields m.ip in
    if bytes_eq m.message_type (codes "q")
    then field (codes "q") (str m.query_method) (field (codes "a") (dict m.args) rest)
    else if bytes_eq m.message_type (codes "r")
    then field (codes "r") (dict m.response) rest
    else if bytes_eq m.message_type (codes "e")
    then field (codes "e") (list m.error) rest
    else rest

unfoldable pub marshal : Message → Result EncodeError Bytes
unfolding encode body_fields
marshal m = encode (
    dict (
      field (codes "t") (str m.transaction_id)
        (field (codes "y") (str m.message_type) (body_fields m))))
