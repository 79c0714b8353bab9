-- ===== src/Tests/Metadata.antt =====
-- The metadata of a torrent that one peer gets from another.
use jelly_torrent.Peer.Metadata.{extension_request}
use jelly_torrent.Peer.Metadata.Served.{metadata_requests, pieces_of}
use jelly_torrent.Peer.Incoming.{byte_of}
use jelly_torrent.Base.{
  ◌≡◌, refl, ap, sym, true, false, none, [], ◌∷◌, ◌++◌, Bytes, codes, pos, arith, take, length,
  bytes_eq,
}
use jelly_torrent.Base.Result.{ok, err, slice_bounds}
use jelly_torrent.Strconv.{itoa, atoi}
use jelly_torrent.Bencode.{put}
use jelly_torrent.Bencode.Decode.{decode}
use jelly_torrent.Metainfo.Info.{serialize_info}
use jelly_torrent.Peer.Wire.{Peer, frame, panicked}
use jelly_torrent.Peer.Metadata.{ExtensionResponse, parse_extension_handshake, download_metadata}
use jelly_torrent.Peer.Metadata.Served.{data_messages, pieces_of, download_metadata-served}
use jelly_torrent.Tests.Torrents.{two_files, two_files-IsPortable}

-- A message of the extension protocol with no payload makes the reader panic.
empty_extension : parse_extension_handshake [] ≡ err (panicked slice_bounds)
unfolding parse_extension_handshake
empty_extension = refl

abbrev reply : Bytes
reply = 0 ∷ codes "d1:md11:ut_metadatai3ee13:metadata_sizei126ee"

two_files-length : length (serialize_info two_files) ≡ 126
unfolding serialize_info itoa
two_files-length = refl

abbrev response : ExtensionResponse
response = record {
  metadata_size = pos 126;
  ut_metadata_id = pos 3;
  ut_pex_id = pos 0;
  mapping = (codes "ut_metadata", pos 3) ∷ [];
}

reply-parsed : parse_extension_handshake reply ≡ ok response
unfolding parse_extension_handshake decode bytes_eq atoi put
reply-parsed = refl

abbrev seeder : Bytes
seeder =
    frame 20 reply
    ++ (data_messages 1 (serialize_info two_files) (pieces_of (serialize_info two_files)) 0 ++ [])

abbrev asking : Peer
asking = record {
  input = seeder;
  stays_open = true;
  sent = [];
  writes_left = 4;
  id = [];
  choked = true;
  bit_field = [];
  server = none;
  am_choking = true;
  ut_pex_id = pos 0;
  has_on_pex = false;
  pex_inbox = [];
}

abbrev first_byte : Bytes → Bytes
first_byte bs = take 1 bs

download_metadata-served_example :
    (q : Peer) × (download_metadata first_byte (first_byte (serialize_info two_files)) asking
      ≡ (ok two_files, q))
    × (q.sent
        ≡ frame 20 extension_request
          ∷ metadata_requests
              (byte_of response.ut_metadata_id)
              (pieces_of (serialize_info two_files))
              0)
    × (q.input ≡ [])
download_metadata-served_example =
    download_metadata-served first_byte two_files response 1 reply [] asking two_files-IsPortable
      (omega (arith, two_files-length)) reply-parsed (ap pos (sym two_files-length)) refl
      (omega arith) (omega (arith, two_files-length)) refl
