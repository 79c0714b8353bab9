-- ===== src/Metainfo/Info/Ignored.antt =====
-- internal/metainfo/info.go: the keys of an info dictionary that do not reach the info hash.
use jelly_torrent.Base.{◌≡◌, refl, false, Bytes, bytes_eq, codes}
use jelly_torrent.Bencode.{Value, Fields, field, get}
use jelly_torrent.Metainfo.Info.{new_info}

-- A key that `NewInfo` does not read.
pub record IsUnread (k : Bytes) : Type 0 where
  pub not_name : bytes_eq k (codes "name") ≡ false
  pub not_piece_length : bytes_eq k (codes "piece length") ≡ false
  pub not_pieces : bytes_eq k (codes "pieces") ≡ false
  pub not_length : bytes_eq k (codes "length") ≡ false
  pub not_files : bytes_eq k (codes "files") ≡ false

get-other :
    (k j : Bytes) (v : Value) (m : Fields) → bytes_eq k j ≡ false → get (field k v m) j ≡ get m j
unfolding get
get-other k j v m h = rw h refl

-- `NewInfo` reads the same info, whatever an entry for another key holds.
pub new_info-ignores :
    (k : Bytes) (v : Value) (m : Fields) → IsUnread k → new_info (field k v m) ≡ new_info m
unfolding new_info
new_info-ignores k v m u =
    rw
      (
        get-other k (codes "name") v m u.not_name,
        get-other k (codes "piece length") v m u.not_piece_length,
        get-other k (codes "pieces") v m u.not_pieces,
        get-other k (codes "length") v m u.not_length,
        get-other k (codes "files") v m u.not_files,
      )
      refl
