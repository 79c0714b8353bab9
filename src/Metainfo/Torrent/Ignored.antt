-- ===== src/Metainfo/Torrent/Ignored.antt =====
-- internal/metainfo/torrent.go: what does not reach the info hash of a torrent.
use jelly_torrent.Base.{◌≡◌, refl, Bytes, bytes_eq, codes}
use jelly_torrent.Bencode.{Value, dict, Fields, field, get}
use jelly_torrent.Metainfo.Info.Ignored.{IsUnread, new_info-ignores}
use jelly_torrent.Metainfo.Torrent.{new_torrent_file}

-- A torrent file, whose `info` comes first in the order of iteration.
abbrev pub torrent : Fields → Fields → Value
torrent info rest = dict (field (codes "info") (dict info) rest)

-- Two torrent files whose info dictionaries differ only in an entry for a key that `NewInfo` does not read, such as `private`, give the same torrent, with the same info hash, whatever the hash function is.
pub new_torrent_file-ignores :
    (sha1 : Bytes → Bytes) (k : Bytes) (v : Value) (info rest : Fields)
    → IsUnread k
    → new_torrent_file sha1 (torrent (field k v info) rest)
      ≡ new_torrent_file sha1 (torrent info rest)
unfolding new_torrent_file get bytes_eq
new_torrent_file-ignores sha1 k v info rest u = rw (new_info-ignores k v info u) refl
