-- ===== src/Bencode.antt =====
-- internal/bencode: the Go values that bencoding reads and writes.
pub mod Encode
pub mod Decode
pub mod Canonical
pub mod RoundTrip
pub mod Texts
use jelly_torrent.Base.{Option, none, some, Bytes, ℤ, bytes_eq, if◌then◌else◌}

-- What an `interface{}` holds: a string, a []byte, an int, a []interface{}, a
-- map[string]interface{}, or a value of any other type, which `Encode` refuses. A map is a chain of
-- entries in its iteration order, which Go leaves open.
mutual
  pub data Value : Type 0 where
    str : Bytes → Value
    bytes : Bytes → Value
    int : ℤ → Value
    list : Items → Value
    dict : Fields → Value
    other : Value

  pub data Items : Type 0 where
    nil : Items
    cons : Value → Items → Items

  pub data Fields : Type 0 where
    end : Fields
    field : Bytes → Value → Fields → Fields

-- `m[k]` with its second result.
unfoldable pub get : Fields → Bytes → Option Value
get end k = none
get (field j v fs) k = if bytes_eq j k then some v else get fs k

-- `m[k] = v`: an entry for `k` is replaced, or a new one is added.
unfoldable pub put : Fields → Bytes → Value → Fields
put end k v = field k v end
put (field j w fs) k v = if bytes_eq j k then field k v fs else field j w (put fs k v)
