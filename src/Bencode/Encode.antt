-- ===== src/Bencode/Encode.antt =====
-- internal/bencode/encode.go.
pub mod Order
pub mod Maps
use jelly_torrent.Base.{
  ℕ, Bool, true, false, List, [], ◌∷◌, ◌++◌, Bytes, codes, ℤ, pos, negsuc, bytes_ltb, length, ◌≡◌,
  refl, if◌then◌else◌,
}
use jelly_torrent.Base.Result.{Result, ok, err, ◌>>=◌}
use jelly_torrent.Strconv.{itoa, itoa_ℕ}
use jelly_torrent.Bencode.{
  Value, str, bytes, int, list, dict, other, Items, nil, cons, Fields, end, field,
}

pub data EncodeError : Type 0 where
  unsupported_type : EncodeError

-- <length>:<contents>
unfoldable pub encode_string : Bytes → Bytes
encode_string data_bytes = itoa_ℕ (length data_bytes) ++ b':' ∷ data_bytes

-- i<number>e
unfoldable pub encode_int : ℤ → Bytes
encode_int n = b'i' ∷ (itoa n ++ b'e' ∷ [])

-- A key with the encoding of its value.
abbrev pub Entry : Type 0
Entry = Bytes × Bytes

unfoldable pub insert_entry : Entry → List Entry → List Entry
insert_entry (k, e) [] = (k, e) ∷ []
insert_entry (k, e) ((j, d) ∷ es) =
    if bytes_ltb j k then (j, d) ∷ insert_entry (k, e) es else (k, e) ∷ (j, d) ∷ es

-- `sort.Strings` on the keys, each with its entry.
unfoldable pub sort_entries : List Entry → List Entry
unfolding insert_entry
sort_entries [] = []
sort_entries (e ∷ es) = insert_entry e (sort_entries es)

-- The loop of `encodeDict` over the sorted keys.
unfoldable pub write_entries : List Entry → Bytes
write_entries [] = []
write_entries ((k, e) ∷ es) = encode_string k ++ (e ++ write_entries es)

unfoldable mutual
  unfolding encode_string encode_int sort_entries write_entries

  pub encode : Value → Result EncodeError Bytes
  encode (str s) = ok (encode_string s)
  encode (bytes s) = ok (encode_string s)
  encode (int n) = ok (encode_int n)
  encode (list xs) = do body ← encode_items xs; ok (b'l' ∷ (body ++ b'e' ∷ []))
  encode (dict fs) = do
    es ← encode_fields fs
    ok (b'd' ∷ (write_entries (sort_entries es) ++ b'e' ∷ []))
  encode other = err unsupported_type

  -- The loop of `encodeList`.
  pub encode_items : Items → Result EncodeError Bytes
  encode_items nil = ok []
  encode_items (cons x xs) = do e ← encode x; body ← encode_items xs; ok (e ++ body)

  -- The encodings of a map's values, in its iteration order.
  pub encode_fields : Fields → Result EncodeError (List Entry)
  encode_fields end = ok []
  encode_fields (field k v fs) = do e ← encode v; es ← encode_fields fs; ok ((k, e) ∷ es)

keys_sorted :
    encode (dict (field (codes "b") (int (pos 2)) (field (codes "a") (list nil) end)))
    ≡ ok (codes "d1:ale1:bi2ee")
unfolding encode encode_string encode_int sort_entries write_entries itoa itoa_ℕ bytes_ltb
keys_sorted = refl
