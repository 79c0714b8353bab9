-- ===== src/Peer/Metadata/Pieces.antt =====
-- internal/metainfo/magnet.go: a piece of metadata as a peer sends it.
use jelly_torrent.Base.{
  ℕ, suc, ◌^◌, ◌≤◌, ◌≡◌, refl, ap, ◌∙◌, ◌∷◌, ◌++◌, append_assoc, arith, Bytes, bytes_eq, bytes_ltb,
  codes, pos, max_int, length, length-append, drop, drop-append, not_ltb_of_le,
}
use jelly_torrent.Base.Result.{ok}
use jelly_torrent.Strconv.Digits.{itoa_ℕ-length}
use jelly_torrent.Strconv.{itoa, itoa_ℕ}
use jelly_torrent.Bencode.{int, dict, Fields, end, field, get}
use jelly_torrent.Bencode.Canonical.{IsCanonical}
use jelly_torrent.Bencode.Encode.{
  encode, encode_fields, encode_string, encode_int, sort_entries, write_entries,
}
use jelly_torrent.Bencode.Decode.{done}
use jelly_torrent.Bencode.Decode.Cursors.{cursor}
use jelly_torrent.Bencode.RoundTrip.{decode_at-encode}
use jelly_torrent.Metainfo.Magnet.{piece_of, metadata_fields, read_metadata, parse_metadata_piece}

-- The dictionary of a data message of BEP 9, and its text.
abbrev pub data_fields : ℕ → ℕ → Fields
data_fields i size =
    field (codes "msg_type") (int (pos 1))
      (field (codes "piece") (int (pos i)) (field (codes "total_size") (int (pos size)) end))

unfoldable pub data_header : ℕ → ℕ → Bytes
unfolding itoa_ℕ
data_header i size =
    codes "d8:msg_typei1e5:piecei"
    ++ (itoa_ℕ i ++ (codes "e10:total_sizei" ++ (itoa_ℕ size ++ codes "ee")))

encode-data_fields : (i size : ℕ) → encode (dict (data_fields i size)) ≡ ok (data_header i size)
unfolding encode encode_fields encode_string encode_int sort_entries write_entries bytes_ltb itoa
    itoa_ℕ data_header
encode-data_fields i size = simp append_assoc

data_fields-IsCanonical :
    (i size : ℕ) → i ≤ max_int → size ≤ max_int → IsCanonical (dict (data_fields i size))
unfolding bytes_ltb
data_fields-IsCanonical i size h k = ((refl, (refl, tt)), (omega arith, (h, (k, tt))))

data_header-length : (i size : ℕ) → 2 ≤ length (data_header i size)
unfolding data_header
data_header-length i size = omega arith

read_data :
    (i size : ℕ) (text chunk : Bytes) (n : ℕ)
    → drop n text ≡ chunk
    → read_metadata text (done (dict (data_fields i size), cursor n chunk))
      ≡ ok (record { piece = pos i; total_size = pos size; piece_data = chunk })
unfolding read_metadata metadata_fields piece_of get bytes_eq
read_data i size text chunk n h =
    ap (λ d. ok (record { piece = pos i; total_size = pos size; piece_data = d })) h

-- A data message with an identifier in front is read as its number, the size and the bytes behind.
pub parse_metadata_piece-data_header :
    (b i size : ℕ) (chunk : Bytes)
    → i ≤ max_int
    → size ≤ max_int
    → length (data_header i size ++ chunk) ≤ max_int
    → parse_metadata_piece (b ∷ (data_header i size ++ chunk))
      ≡ ok (record { piece = pos i; total_size = pos size; piece_data = chunk })
unfolding parse_metadata_piece
parse_metadata_piece-data_header b i size chunk h k fits =
    let header = data_header i size in
    rw
      (not_ltb_of_le (suc (length (header ++ chunk))) 2
        (omega (arith, data_header-length i size, length-append header chunk)))
      (ap (read_metadata (header ++ chunk)) (
          decode_at-encode (dict (data_fields i size)) header chunk
            (data_fields-IsCanonical i size h k) (omega arith) fits (encode-data_fields i size))
        ∙ read_data i size (header ++ chunk) chunk (length header) (drop-append header chunk))

-- The header of a piece of metadata of at most 2^48 bytes is short.
pub data_header-short :
    (i size : ℕ) → i ≤ 2 ^ 48 → size ≤ 2 ^ 48 → length (data_header i size) ≤ 100
unfolding data_header
data_header-short i size h k = omega (
  arith,
  itoa_ℕ-length i 14 (omega arith),
  itoa_ℕ-length size 14 (omega arith),
  length-append (itoa_ℕ i) (codes "e10:total_sizei" ++ (itoa_ℕ size ++ codes "ee")),
  length-append (itoa_ℕ size) (codes "ee"),
)
