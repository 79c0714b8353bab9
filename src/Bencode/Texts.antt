-- ===== src/Bencode/Texts.antt =====
-- internal/bencode: strings that are decoded to a string or a []byte.
pub mod Normal
use jelly_torrent.Base.Result.{ok}
use jelly_torrent.Base.{List, [], ◌∷◌, ◌++◌, ◌≡◌, refl, inl, inr, Bytes, arith, Bool-cases}
use jelly_torrent.Strconv.{valid_utf8}
use jelly_torrent.Bencode.{
  Value, str, bytes, int, list, dict, other, Items, nil, cons, Fields, end, field,
}
use jelly_torrent.Bencode.Canonical.{IsCanonical, AreCanonical, FieldsCanonical, nesting}
use jelly_torrent.Bencode.Encode.{
  Entry, sort_entries, write_entries, encode, encode_items, encode_fields,
}
use jelly_torrent.Bencode.Decode.{as_text}

-- What the decoder makes of a string.
abbrev pub text : Bytes → Value
text s = as_text 0 s

pub text-IsCanonical : (s : Bytes) → IsCanonical (text s)
unfolding as_text
text-IsCanonical s = elim (Bool-cases (valid_utf8 s)) [
  | inl e ↦ rw (e, IsCanonical) e
  | inr e ↦ rw (e, IsCanonical) e
]

pub text-nesting : (s : Bytes) → nesting (text s) ≡ 0
unfolding as_text
text-nesting s = ground arith

pub encode-text : (s : Bytes) → encode (str s) ≡ encode (text s)
unfolding as_text encode
encode-text s = ground arith

pub fields_same :
    (k : Bytes) (v w : Value) (m n : Fields)
    → encode v ≡ encode w
    → encode_fields m ≡ encode_fields n
    → encode_fields (field k v m) ≡ encode_fields (field k w n)
unfolding encode
fields_same k v w m n p q = rw (p, q) refl

pub dict_same :
    (m n : Fields) → encode_fields m ≡ encode_fields n → encode (dict m) ≡ encode (dict n)
unfolding encode
dict_same m n p = rw p refl

mutual
  unfolding encode

  -- What the decoder can build can be encoded.
  pub canonical-encodes : (v : Value) → IsCanonical v → (e : Bytes) × (encode v ≡ ok e)
  canonical-encodes (str s) c = (_, refl)
  canonical-encodes (bytes s) c = (_, refl)
  canonical-encodes (int n) c = (_, refl)
  canonical-encodes (list xs) c =
      let (e, p) = canonical_items xs c in (b'l' ∷ (e ++ b'e' ∷ []), rw p refl)
  canonical-encodes (dict fs) c =
      let (es, p) = canonical_fields fs c.1 in
      (b'd' ∷ (write_entries (sort_entries es) ++ b'e' ∷ []), rw p refl)
  canonical-encodes other c = absurd c

  canonical_items : (xs : Items) → AreCanonical xs → (e : Bytes) × (encode_items xs ≡ ok e)
  canonical_items nil c = (_, refl)
  canonical_items (cons x xs) (c, d) =
      let (e, p) = canonical-encodes x c in
      let (b, q) = canonical_items xs d in (e ++ b, rw (p, q) refl)

  canonical_fields :
      (fs : Fields) → FieldsCanonical fs → (es : List Entry) × (encode_fields fs ≡ ok es)
  canonical_fields end c = (_, refl)
  canonical_fields (field k v fs) (c, d) =
      let (e, p) = canonical-encodes v c in
      let (es, q) = canonical_fields fs d in ((k, e) ∷ es, rw (p, q) refl)
