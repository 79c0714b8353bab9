-- ===== src/Peer/Metadata.antt =====
-- internal/peer/handshake.go and internal/peer/peer.go: the extension handshake, and the metadata of
-- a magnet link.
pub mod Pieces
pub mod Served
use jelly_torrent.Base.{
  ℕ, zero, suc, ◌+◌, ◌-◌, ◌/◌, ◌^◌, ◌≡◌, Bool, true, false, Option, none, some, List, [], ◌∷◌, ◌++◌,
  Bytes, codes, bytes_eq, length, take, drop, ltb, ◌==◌, if◌then◌else◌, ℤ, pos, negsuc, eq_ℤ,
}
use jelly_torrent.Base.Result.{Result, ok, err, slice_bounds, makeslice}
use jelly_torrent.Base.Assoc.{Assoc}
use jelly_torrent.Strconv.{itoa_ℕ}
use jelly_torrent.Bencode.{Value, int, dict, Fields, end, field, get}
use jelly_torrent.Bencode.Decode.{DecodeError, Outcome, done, failed, out_of_fuel, decode}
use jelly_torrent.Metainfo.Info.{Info, InfoError, as_int, as_dict, new_info}
use jelly_torrent.Metainfo.Magnet.{MetadataError, MetadataPiece, parse_metadata_piece}
use jelly_torrent.Peer.Wire.{
  Peer, PeerMessage, Run, WireError, unexpected, bad_bencoding, not_a_dictionary, no_metadata,
  empty_metadata, metadata_hash_mismatch, bad_metadata, bad_info, endless, panicked, and_then,
  send_message,
}
use jelly_torrent.Peer.Incoming.{byte_of}

pub record ExtensionResponse : Type 0 where
  pub metadata_size : ℤ
  pub ut_metadata_id : ℤ
  pub ut_pex_id : ℤ
  pub mapping : List (Bytes × ℤ)

-- An int, or the zero of a field that is not set.
unfoldable pub int_or_zero : Option ℤ → ℤ
int_or_zero none = pos 0
int_or_zero (some n) = n

-- The entries of `m` that are ints.
unfoldable pub int_entries : Fields → List (Bytes × ℤ)
int_entries end = []
int_entries (field k (int n) fs) = (k, n) ∷ int_entries fs
int_entries (field k v fs) = int_entries fs

-- The map `m`, which is empty when it is missing.
unfoldable pub entries_of : Option Fields → Fields
entries_of none = end
entries_of (some m) = m

unfoldable pub response_of : ℤ → Fields → ExtensionResponse
unfolding int_or_zero int_entries get
response_of size m = record {
  metadata_size = size;
  ut_metadata_id = int_or_zero (as_int (get m (codes "ut_metadata")));
  ut_pex_id = int_or_zero (as_int (get m (codes "ut_pex")));
  mapping = int_entries m;
}

unfoldable pub read_extension : Outcome Value → Result WireError ExtensionResponse
unfolding response_of int_or_zero entries_of get
read_extension (failed e) = err (bad_bencoding e)
read_extension out_of_fuel = err endless
read_extension (done (dict d)) = ok (
    response_of (int_or_zero (as_int (get d (codes "metadata_size"))))
      (entries_of (as_dict (get d (codes "m")))))
read_extension (done v) = err not_a_dictionary

-- `payload[1:]`, which panics on an empty payload.
unfoldable pub parse_extension_handshake : Bytes → Result WireError ExtensionResponse
unfolding read_extension decode
parse_extension_handshake [] = err (panicked slice_bounds)
parse_extension_handshake (b ∷ bencoded) = read_extension (decode bencoded)

unfoldable pub extension_reply : PeerMessage → Peer → Run ExtensionResponse
unfolding parse_extension_handshake
extension_reply m p =
    if m.kind == 20 then (parse_extension_handshake m.payload, p) else (err (unexpected m.kind), p)

abbrev pub extension_request : Bytes
extension_request = 0 ∷ codes "d1:md11:ut_metadatai1e6:ut_pexi2eee"

unfoldable pub extension_handshake : Peer → Run ExtensionResponse
unfolding send_message and_then extension_reply
extension_handshake p = and_then (send_message 20 extension_request p) extension_reply

unfoldable pub metadata_result : Result MetadataError MetadataPiece → Result WireError MetadataPiece
metadata_result (ok piece) = ok piece
metadata_result (err e) = err (bad_metadata e)

unfoldable pub metadata_reply : PeerMessage → Peer → Run MetadataPiece
unfolding metadata_result parse_metadata_piece
metadata_reply m p =
    if m.kind == 20
    then (metadata_result (parse_metadata_piece m.payload), p)
    else (err (unexpected m.kind), p)

unfoldable pub metadata_request : ℕ → ℕ → Bytes
unfolding itoa_ℕ
metadata_request ut_metadata_id i =
    ut_metadata_id ∷ (codes "d8:msg_typei0e5:piecei" ++ (itoa_ℕ i ++ codes "ee"))

unfoldable pub request_metadata_piece : ℕ → ℕ → Peer → Run MetadataPiece
unfolding send_message and_then metadata_reply metadata_request
request_metadata_piece ut_metadata_id i p =
    and_then (send_message 20 (metadata_request ut_metadata_id i) p) metadata_reply

-- The loop over the pieces from `i` on.
unfoldable pub metadata_from : ℕ → ℕ → ℕ → Bytes → Peer → Run Bytes
unfolding request_metadata_piece and_then
metadata_from zero ut_metadata_id i metadata p = (ok metadata, p)
metadata_from (suc n) ut_metadata_id i metadata p =
    and_then (request_metadata_piece ut_metadata_id i p)
      (λ piece q. metadata_from n ut_metadata_id (suc i) (metadata ++ piece.piece_data) q)

unfoldable pub info_result : Result InfoError Info → Result WireError Info
info_result (ok i) = ok i
info_result (err e) = err (bad_info e)

unfoldable pub info_of : Outcome Value → Result WireError Info
unfolding info_result new_info
info_of (failed e) = err (bad_bencoding e)
info_of out_of_fuel = err endless
info_of (done (dict d)) = info_result (new_info d)
info_of (done v) = err not_a_dictionary

-- What is done with the pieces; `hash` is SHA-1.
unfoldable pub check_metadata : (Bytes → Bytes) → Bytes → ℕ → Bytes → Result WireError Info
unfolding info_of decode
check_metadata hash info_hash size metadata =
    let exact = take size metadata in
    if bytes_eq (hash exact) info_hash then info_of (decode exact) else err metadata_hash_mismatch

-- `make([]byte, 0, n)` panics for a negative capacity, and for one past the 2^48 bytes of an address
-- space; memory is taken to suffice for any other.
unfoldable pub fetch_metadata : (Bytes → Bytes) → Bytes → ℤ → ℕ → Peer → Run Info
unfolding metadata_from and_then check_metadata
fetch_metadata hash info_hash (negsuc n) ut_metadata_id p = (err (panicked makeslice), p)
fetch_metadata hash info_hash (pos n) ut_metadata_id p =
    if ltb (2 ^ 48) n
    then (err (panicked makeslice), p)
    else and_then (metadata_from ((n + 16383) / 16384) ut_metadata_id 0 [] p)
        (λ metadata q. (check_metadata hash info_hash n metadata, q))

unfoldable pub on_response : (Bytes → Bytes) → Bytes → ExtensionResponse → Peer → Run Info
unfolding fetch_metadata byte_of
on_response hash info_hash r p =
    if eq_ℤ r.ut_metadata_id (pos 0)
    then (err no_metadata, p)
    else if eq_ℤ r.metadata_size (pos 0)
    then (err empty_metadata, p)
    else fetch_metadata hash info_hash r.metadata_size (byte_of r.ut_metadata_id) p

unfoldable pub download_metadata : (Bytes → Bytes) → Bytes → Peer → Run Info
unfolding extension_handshake and_then on_response
download_metadata hash info_hash p = and_then (extension_handshake p) (on_response hash info_hash)
