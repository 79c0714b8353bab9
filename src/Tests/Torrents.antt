-- ===== src/Tests/Torrents.antt =====
-- internal/metainfo: runs at concrete inputs.
use jelly_torrent.Base.{◌≡◌, refl, [], ◌∷◌, bytes_eq, codes, pos, arith, replicate}
use jelly_torrent.Base.{some}
use jelly_torrent.Base.Result.{ok, err}
use jelly_torrent.Strconv.{itoa, valid_utf8}
use jelly_torrent.Bencode.{int, list, dict, nil, cons, field}
use jelly_torrent.Bencode.Encode.{encode}
use jelly_torrent.Bencode.Decode.{decode, done}
use jelly_torrent.Metainfo.Info.{Info, new_info, serialize_info, sum_lengths}
use jelly_torrent.Metainfo.Info.Laws.{info_fields, encode-info}
use jelly_torrent.Metainfo.Info.RoundTrip.{IsPortable, decode-serialize_info}
use jelly_torrent.Metainfo.Info.Ignored.{IsUnread}
use jelly_torrent.Metainfo.Torrent.Ignored.{torrent, new_torrent_file-ignores}
use jelly_torrent.Bencode.{Fields, end, str}
use jelly_torrent.Metainfo.Hashes.{Cuts, piece_hashes, piece_hashes-Cuts}
use jelly_torrent.Metainfo.Torrent.{
  TorrentFile, new_torrent_file, announce_list_of, panic_on_empty_tier, tracker_urls,
}

abbrev pub two_files : Info
two_files = record {
  total_length = pos 7;
  name = codes "dir";
  piece_length = pos 16384;
  pieces = replicate 20 0xff;
  info_hash = replicate 20 0;
  files =
      record { file_length = pos 3; path = codes "a" ∷ [] }
      ∷ record { file_length = pos 4; path = codes "b" ∷ codes "c" ∷ [] }
      ∷ [];
}

pub two_files-IsPortable : IsPortable two_files
unfolding valid_utf8 sum_lengths
two_files-IsPortable = record {
  name_text = refl;
  pieces_binary = refl;
  piece_length_int = omega arith;
  total_int = omega arith;
  files_text = ((omega arith, (refl, tt)), ((omega arith, (refl, (refl, tt))), tt));
  sums = refl;
}

decode-serialize_info_example :
    (decode (serialize_info two_files) ≡ done (dict (info_fields two_files)))
    × (new_info (info_fields two_files) ≡ ok two_files)
unfolding serialize_info itoa
decode-serialize_info_example = decode-serialize_info two_files two_files-IsPortable (omega arith)

encode-info_example : encode (dict (info_fields two_files)) ≡ ok (serialize_info two_files)
encode-info_example = encode-info two_files

private-IsUnread : IsUnread (codes "private")
unfolding bytes_eq
private-IsUnread = record {
  not_name = refl;
  not_piece_length = refl;
  not_pieces = refl;
  not_length = refl;
  not_files = refl;
}

abbrev announce_field : Fields
announce_field = field (codes "announce") (str (codes "http://t/announce")) end

new_torrent_file-ignores_example :
    new_torrent_file
      (λ bs. bs)
      (torrent (field (codes "private") (int (pos 1)) (info_fields two_files)) announce_field)
    ≡ new_torrent_file (λ bs. bs) (torrent (info_fields two_files) announce_field)
new_torrent_file-ignores_example =
    new_torrent_file-ignores (λ bs. bs) (codes "private") (int (pos 1)) (info_fields two_files)
      announce_field private-IsUnread

piece_hashes-Cuts_example :
    Cuts 1 (replicate 20 0xff) (piece_hashes (replicate 20 0xff) (codes "e"))
piece_hashes-Cuts_example = piece_hashes-Cuts 1 (replicate 20 0xff) (codes "e") (omega arith)

-- An empty tier is an index out of range.
empty_tier : announce_list_of (some (cons (list nil) nil)) ≡ err panic_on_empty_tier
unfolding announce_list_of
empty_tier = refl

abbrev repeated : TorrentFile
repeated = record {
  announce = codes "u";
  announce_list = codes "v" ∷ [] ∷ codes "u" ∷ codes "v" ∷ [];
  info = two_files;
}

two_urls : tracker_urls repeated ≡ codes "u" ∷ codes "v" ∷ []
unfolding tracker_urls bytes_eq
two_urls = refl
