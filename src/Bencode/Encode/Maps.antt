-- ===== src/Bencode/Encode/Maps.antt =====
-- internal/bencode/encode.go: what is written for a map does not depend on its iteration order.
use mathlib.Core.List.{Perm}
use jelly_torrent.Base.{◌≡◌, List}
use jelly_torrent.Base.Result.{ok}
use jelly_torrent.Bencode.{Fields, dict}
use jelly_torrent.Bencode.Encode.{Entry, encode, encode_fields}
use jelly_torrent.Bencode.Encode.Order.{DistinctKeys, sort_entries-perm}

-- Two iteration orders of one map, whose keys are distinct and whose values can be encoded, are
-- written as the same bytes.
pub encode-dict-perm :
    (fs gs : Fields) (es ds : List Entry)
    → encode_fields fs ≡ ok es
    → encode_fields gs ≡ ok ds
    → Perm es ds
    → DistinctKeys es
    → encode (dict fs) ≡ encode (dict gs)
unfolding encode
encode-dict-perm fs gs es ds p q perm distinct = rw (p, q, sort_entries-perm perm distinct)
