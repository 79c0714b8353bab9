-- ===== src/Dht/Messages/RoundTrip.antt =====
-- internal/dht/krpc/message.go: a message that is marshalled and read back.
use jelly_torrent.Base.{
  ◌≤◌, ◌≡◌, refl, ap, ◌∙◌, Option, none, some, [], Bytes, codes, arith, length, bytes_eq, bytes_ltb,
  max_int,
}
use jelly_torrent.Base.Result.{ok}
use jelly_torrent.Bencode.{Value, str, list, dict, Items, nil, Fields, end, field}
use jelly_torrent.Bencode.Canonical.{IsCanonical, FieldsCanonical, nesting}
use jelly_torrent.Bencode.Encode.{encode, encode_fields, sort_entries}
use jelly_torrent.Bencode.Decode.{as_text}
use jelly_torrent.Bencode.RoundTrip.{decode-encode}
use jelly_torrent.Bencode.Texts.{
  text, text-IsCanonical, text-nesting, encode-text, canonical-encodes, fields_same, dict_same,
}
use jelly_torrent.Bencode.Texts.Normal.{
  normal, normal_items, normal_fields, IsWritten, normal-IsCanonical, nesting-normal, encode-normal,
  written-encodes,
}
use jelly_torrent.Dht.Messages.{
  Message, to_string, text_of, ip_of, read_fields, read_message, unmarshal, marshal,
}

abbrev message : Bytes → Bytes → Option Bytes → Message
message kind id ip = record {
  transaction_id = id;
  message_type = kind;
  query_method = [];
  args = end;
  response = end;
  error = nil;
  ip = ip;
}

-- What is read back: in the arguments, the response or the error, a string that is not UTF-8 comes back
-- as a []byte, and the other way round.
abbrev pub normal_message : Message → Message
normal_message m = record m {
  args = normal_fields m.args;
  response = normal_fields m.response;
  error = normal_items m.error;
}

-- A message of one of the three types, with nothing in the fields of the others, whose values nest at
-- most 511 deep.
pub data IsMessage : Message → Type 0 where
  query :
      (id method : Bytes) (ip : Option Bytes) (a : Fields)
      → IsWritten (dict a)
      → nesting (dict a) ≤ 511
      → IsMessage (record (message (codes "q") id ip) { query_method = method; args = a })
  reply :
      (id : Bytes) (ip : Option Bytes) (r : Fields)
      → IsWritten (dict r)
      → nesting (dict r) ≤ 511
      → IsMessage (record (message (codes "r") id ip) { response = r })
  failure :
      (id : Bytes) (ip : Option Bytes) (e : Items)
      → IsWritten (list e)
      → nesting (list e) ≤ 511
      → IsMessage (record (message (codes "e") id ip) { error = e })

-- The entries in the order of their keys, with `f` for what holds a string, and `g` for the rest.
module _ (f : Bytes → Value) (g : Value → Value) where
  abbrev ends : Bytes → Bytes → Fields
  ends kind id = field (codes "t") (f id) (field (codes "y") (f kind) end)

  abbrev ip_then : Option Bytes → Fields → Fields
  ip_then none fs = fs
  ip_then (some ip) fs = field (codes "ip") (f ip) fs

  abbrev entries : {m : Message} → IsMessage m → Fields
  entries (query id method ip a c n) =
      field (codes "a") (g (dict a))
        (ip_then ip (field (codes "q") (f method) (ends (codes "q") id)))
  entries (reply id ip r c n) = ip_then ip (field (codes "r") (g (dict r)) (ends (codes "r") id))
  entries (failure id ip e c n) = field (codes "e") (g (list e)) (ip_then ip (ends (codes "e") id))

ends-canonical : (kind id : Bytes) → FieldsCanonical (ends text normal kind id)
ends-canonical kind id = (text-IsCanonical id, (text-IsCanonical kind, tt))

entries-IsCanonical : {m : Message} (h : IsMessage m) → IsCanonical (dict (entries text normal h))
unfolding bytes_ltb
entries-IsCanonical (query id method none a c n) = (
  (refl, (refl, (refl, tt))),
  (normal-IsCanonical (dict a) c, (text-IsCanonical method, ends-canonical (codes "q") id)),
)
entries-IsCanonical (query id method (some ip) a c n) = (
  (refl, (refl, (refl, (refl, tt)))),
  (
    normal-IsCanonical (dict a) c,
    (text-IsCanonical ip, (text-IsCanonical method, ends-canonical (codes "q") id)),
  ),
)
entries-IsCanonical (reply id none r c n) =
    ((refl, (refl, tt)), (normal-IsCanonical (dict r) c, ends-canonical (codes "r") id))
entries-IsCanonical (reply id (some ip) r c n) = (
  (refl, (refl, (refl, tt))),
  (text-IsCanonical ip, (normal-IsCanonical (dict r) c, ends-canonical (codes "r") id)),
)
entries-IsCanonical (failure id none e c n) =
    ((refl, (refl, tt)), (normal-IsCanonical (list e) c, ends-canonical (codes "e") id))
entries-IsCanonical (failure id (some ip) e c n) = (
  (refl, (refl, (refl, tt))),
  (normal-IsCanonical (list e) c, (text-IsCanonical ip, ends-canonical (codes "e") id)),
)

entries-nesting : {m : Message} (h : IsMessage m) → nesting (dict (entries text normal h)) ≤ 512
entries-nesting (query id method none a c n) =
    omega (
      arith,
      nesting-normal (dict a),
      text-nesting id,
      text-nesting method,
      text-nesting (codes "q"),
    )
entries-nesting (query id method (some ip) a c n) = omega (
  arith,
  nesting-normal (dict a),
  text-nesting id,
  text-nesting ip,
  text-nesting method,
  text-nesting (codes "q"),
)
entries-nesting (reply id none r c n) =
    omega (arith, nesting-normal (dict r), text-nesting id, text-nesting (codes "r"))
entries-nesting (reply id (some ip) r c n) =
    omega
      (arith, nesting-normal (dict r), text-nesting id, text-nesting ip, text-nesting (codes "r"))
entries-nesting (failure id none e c n) =
    omega (arith, nesting-normal (list e), text-nesting id, text-nesting (codes "e"))
entries-nesting (failure id (some ip) e c n) =
    omega
      (arith, nesting-normal (list e), text-nesting id, text-nesting ip, text-nesting (codes "e"))

-- What is written has the order of the keys.
marshal-entries :
    {m : Message} (h : IsMessage m) → marshal m ≡ encode (dict (entries str (λ v. v) h))
unfolding marshal encode sort_entries bytes_ltb bytes_eq
marshal-entries (query id method none a c n) = rw (written-encodes (dict a) c).1 refl
marshal-entries (query id method (some ip) a c n) = rw (written-encodes (dict a) c).1 refl
marshal-entries (reply id none r c n) = rw (written-encodes (dict r) c).1 refl
marshal-entries (reply id (some ip) r c n) = rw (written-encodes (dict r) c).1 refl
marshal-entries (failure id none e c n) = rw (written-encodes (list e) c).1 refl
marshal-entries (failure id (some ip) e c n) = rw (written-encodes (list e) c).1 refl

-- A string is written like what the decoder makes of it.
ends-same :
    (kind id : Bytes)
    → encode_fields (ends str (λ v. v) kind id) ≡ encode_fields (ends text normal kind id)
ends-same kind id =
    fields_same (codes "t") (str id) (text id) _ _ (encode-text id)
      (fields_same (codes "y") (str kind) (text kind) end end (encode-text kind) refl)

ip_then-same :
    (ip : Option Bytes) (m n : Fields)
    → encode_fields m ≡ encode_fields n
    → encode_fields (ip_then str (λ v. v) ip m) ≡ encode_fields (ip_then text normal ip n)
ip_then-same none m n p = p
ip_then-same (some ip) m n p = fields_same (codes "ip") (str ip) (text ip) m n (encode-text ip) p

entries-same :
    {m : Message} (h : IsMessage m)
    → encode_fields (entries str (λ v. v) h) ≡ encode_fields (entries text normal h)
entries-same (query id method ip a c n) =
    fields_same (codes "a") (dict a) (normal (dict a)) _ _ (encode-normal (dict a)) (
      ip_then-same ip _ _ (
        fields_same (codes "q") (str method) (text method) _ _ (encode-text method)
          (ends-same (codes "q") id)))
entries-same (reply id ip r c n) = ip_then-same ip _ _ (
    fields_same (codes "r") (dict r) (normal (dict r)) _ _ (encode-normal (dict r))
      (ends-same (codes "r") id))
entries-same (failure id ip e c n) =
    fields_same (codes "e") (list e) (normal (list e)) _ _ (encode-normal (list e))
      (ip_then-same ip _ _ (ends-same (codes "e") id))

pub to_string-text : (s : Bytes) → to_string (text s) ≡ some s
unfolding to_string as_text
to_string-text s = ground arith

text_of-text : (key s : Bytes) → text_of key (some (text s)) ≡ ok s
unfolding text_of
text_of-text key s = rw (to_string-text s, text_of) refl

ip_of-text : (s : Bytes) → ip_of (some (text s)) ≡ some s
unfolding ip_of
ip_of-text s = to_string-text s

read_fields-entries :
    {m : Message} (h : IsMessage m) → read_fields (entries text normal h) ≡ ok (normal_message m)
unfolding read_fields bytes_eq
read_fields-entries (query id method none a c n) =
    rw
      (
        text_of-text (codes "t") id,
        text_of-text (codes "y") (codes "q"),
        text_of-text (codes "q") method,
      )
      refl
read_fields-entries (query id method (some ip) a c n) =
    rw
      (
        text_of-text (codes "t") id,
        text_of-text (codes "y") (codes "q"),
        text_of-text (codes "q") method,
        ip_of-text ip,
      )
      refl
read_fields-entries (reply id none r c n) =
    rw (text_of-text (codes "t") id, text_of-text (codes "y") (codes "r")) refl
read_fields-entries (reply id (some ip) r c n) =
    rw (text_of-text (codes "t") id, text_of-text (codes "y") (codes "r"), ip_of-text ip) refl
read_fields-entries (failure id none e c n) =
    rw (text_of-text (codes "t") id, text_of-text (codes "y") (codes "e")) refl
read_fields-entries (failure id (some ip) e c n) =
    rw (text_of-text (codes "t") id, text_of-text (codes "y") (codes "e"), ip_of-text ip) refl

-- A query, a response or an error, with any bytes in its strings, is marshalled, and read back with the same bytes everywhere: only that inside the arguments, the response or the error a text that is UTF-8 comes back as a string, and any other as a []byte. Its numbers are in the range of an int, its maps are listed in the order of their keys, it nests at most 511 deep, and its text is no longer than an int can count.
pub unmarshal-marshal :
    {m : Message}
    → IsMessage m
    → (e : Bytes) × (marshal m ≡ ok e) × (length e ≤ max_int → unmarshal e ≡ ok (normal_message m))
unfolding unmarshal read_message
unmarshal-marshal {m = m} h =
    let c = entries-IsCanonical h in
    let (e, p) = canonical-encodes (dict (entries text normal h)) c in
    let written = marshal-entries h ∙ dict_same _ _ (entries-same h) ∙ p in
    (
      e,
      written,
      λ fits.
          ap read_message
            (decode-encode (dict (entries text normal h)) e c (entries-nesting h) fits p)
          ∙ read_fields-entries h,
    )
