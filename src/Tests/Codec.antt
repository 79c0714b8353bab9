-- ===== src/Tests/Codec.antt =====
-- internal/bencode: runs at concrete inputs.
use mathlib.Core.List.{Permᴰ}
use jelly_torrent.Base.{
  ◌≡◌, ◌≢◌, refl, ap, List, [], ◌∷◌, Bytes, codes, pos, negsuc, arith, get_or, bytes_eq, bytes_ltb,
}
use jelly_torrent.Base.Result.{ok}
use jelly_torrent.Strconv.{itoa, itoa_ℕ, atoi, valid_utf8}
use jelly_torrent.Bencode.{Value, str, int, list, dict, nil, cons, Fields, end, field, put}
use jelly_torrent.Bencode.Encode.{Entry, encode, encode_int, encode_fields}
use jelly_torrent.Bencode.Encode.Maps.{encode-dict-perm}
use jelly_torrent.Bencode.Decode.{decode, decode_at, done, failed, decode_error, leading_zero}
use jelly_torrent.Bencode.Decode.Cursors.{cursor, Moves}
use jelly_torrent.Bencode.Decode.Progress.{decode_at-Moves}
use jelly_torrent.Bencode.RoundTrip.{decode-encode}

abbrev ping : Value
ping = dict (
    field (codes "a") (list (cons (int (negsuc 2)) nil))
      (field (codes "q") (str (codes "ping")) end))

abbrev ping_bytes : Bytes
ping_bytes = codes "d1:ali-3ee1:q4:pinge"

encode-ping : encode ping ≡ ok ping_bytes
unfolding encode bytes_ltb itoa itoa_ℕ
encode-ping = refl

-- A leading zero behind a sign is read, but not in front.
negative_leading_zero : decode (codes "i-05e") ≡ done (int (negsuc 4))
unfolding decode bytes_eq atoi
negative_leading_zero = refl

leading_zero_fails : decode (codes "i05e") ≡ failed (decode_error 0 leading_zero)
unfolding decode bytes_eq
leading_zero_fails = refl

-- Keys in any order are read.
unsorted_keys :
    decode (codes "d1:bi1e1:ai2ee")
    ≡ done (dict (field (codes "b") (int (pos 1)) (field (codes "a") (int (pos 2)) end)))
unfolding decode atoi bytes_eq put
unsorted_keys = refl

decode-encode_example : decode ping_bytes ≡ done ping
unfolding valid_utf8 bytes_ltb
decode-encode_example =
    decode-encode ping ping_bytes ((refl, tt), ((omega arith, tt), (refl, tt))) (omega arith)
      (omega arith) encode-ping

decode_at-Moves_example : Moves (codes "xi1e") (cursor 1 (codes "i1e")) (decode_at (codes "xi1e") 1)
decode_at-Moves_example = decode_at-Moves (codes "xi1e") 1 (omega arith)

abbrev first_order : Fields
first_order = field (codes "x") (int (pos 1)) (field (codes "y") (int (pos 2)) end)

abbrev second_order : Fields
second_order = field (codes "y") (int (pos 2)) (field (codes "x") (int (pos 1)) end)

abbrev first_entries : List Entry
first_entries = (codes "x", codes "i1e") ∷ (codes "y", codes "i2e") ∷ []

abbrev second_entries : List Entry
second_entries = (codes "y", codes "i2e") ∷ (codes "x", codes "i1e") ∷ []

first_encoded : encode_fields first_order ≡ ok first_entries
unfolding encode_fields encode_int itoa itoa_ℕ
first_encoded = refl

second_encoded : encode_fields second_order ≡ ok second_entries
unfolding encode_fields encode_int itoa itoa_ℕ
second_encoded = refl

keys_differ : codes "x" ≢ codes "y"
keys_differ e = let h : 120 ≡ 121 = ap (λ s. get_or s 0 0) e in absurd (omega (arith, h))

encode-dict-perm_example : encode (dict first_order) ≡ encode (dict second_order)
encode-dict-perm_example =
    encode-dict-perm first_order second_order first_entries second_entries first_encoded
      second_encoded ∣ Permᴰ.swap refl refl ∣₁ ((keys_differ, tt), (tt, tt))
