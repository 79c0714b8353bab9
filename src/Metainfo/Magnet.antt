-- ===== src/Metainfo/Magnet.antt =====
-- internal/metainfo/magnet.go: the pieces of metadata that a peer sends.
use jelly_torrent.Base.{
  Option, none, some, Bytes, codes, length, drop, ltb, if◌then◌else◌, ℤ, pos, eq_ℤ,
}
use jelly_torrent.Base.Result.{Result, ok, err}
use jelly_torrent.Bencode.{Value, dict, get}
use jelly_torrent.Bencode.Decode.{
  DecodeError, Outcome, done, failed, out_of_fuel, Cursor, decode_at,
}
use jelly_torrent.Metainfo.Info.{as_int}

pub record MetadataPiece : Type 0 where
  pub piece : ℤ
  pub total_size : ℤ
  pub piece_data : Bytes

-- `endless` is a decoder that is out of fuel, which `Decode` never is.
pub data MetadataError : Type 0 where
  too_short not_a_dictionary invalid_msg_type no_piece no_total_size endless : MetadataError
  bad_bencoding : DecodeError → MetadataError

-- The last two of the three numbers, and the bytes behind the dictionary.
unfoldable pub piece_of : Option ℤ → Option ℤ → Bytes → Result MetadataError MetadataPiece
piece_of none size after = err no_piece
piece_of (some i) none after = err no_total_size
piece_of (some i) (some size) after =
    ok (record { piece = i; total_size = size; piece_data = after })

unfoldable pub metadata_fields :
    Option ℤ → Option ℤ → Option ℤ → Bytes → Result MetadataError MetadataPiece
unfolding piece_of
metadata_fields none i size after = err invalid_msg_type
metadata_fields (some t) i size after =
    if eq_ℤ t (pos 1) then piece_of i size after else err invalid_msg_type

unfoldable pub read_metadata : Bytes → Outcome (Value × Cursor) → Result MetadataError MetadataPiece
unfolding metadata_fields get
read_metadata bencoded (failed e) = err (bad_bencoding e)
read_metadata bencoded out_of_fuel = err endless
read_metadata bencoded (done (dict d, c)) =
    metadata_fields (as_int (get d (codes "msg_type"))) (as_int (get d (codes "piece")))
      (as_int (get d (codes "total_size"))) (drop c.index bencoded)
read_metadata bencoded (done (v, c)) = err not_a_dictionary

unfoldable pub parse_metadata_piece : Bytes → Result MetadataError MetadataPiece
unfolding read_metadata decode_at
parse_metadata_piece payload =
    if ltb (length payload) 2
    then err too_short
    else read_metadata (drop 1 payload) (decode_at (drop 1 payload) 0)
