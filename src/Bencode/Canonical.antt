-- ===== src/Bencode/Canonical.antt =====
-- internal/bencode: the values that have one encoding, and how deep a value nests.
use Prim.Native.Nat.{max}
use jelly_torrent.Base.{ℕ, suc, ◌≡◌, true, false, Bytes, IsInt, bytes_ltb}
use jelly_torrent.Strconv.{valid_utf8}
use jelly_torrent.Bencode.{
  Value, str, bytes, int, list, dict, other, Items, nil, cons, Fields, end, field,
}

-- The keys behind `k` rise strictly in the chain of entries.
abbrev pub Rising : Bytes → Fields → Type 0
Rising k end = Unit
Rising k (field j v fs) = (bytes_ltb k j ≡ true) × Rising j fs

abbrev pub KeysRise : Fields → Type 0
KeysRise end = Unit
KeysRise (field k v fs) = Rising k fs

-- The values that `Decode` builds from canonical bencoding: a string is UTF-8 and a []byte is not,
-- an int is in range, and the entries of a map stand in the order of their keys.
abbrev mutual
  pub IsCanonical : Value → Type 0
  IsCanonical (str s) = valid_utf8 s ≡ true
  IsCanonical (bytes s) = valid_utf8 s ≡ false
  IsCanonical (int n) = IsInt n
  IsCanonical (list xs) = AreCanonical xs
  IsCanonical (dict fs) = KeysRise fs × FieldsCanonical fs
  IsCanonical other = ⊥

  pub AreCanonical : Items → Type 0
  AreCanonical nil = Unit
  AreCanonical (cons x xs) = IsCanonical x × AreCanonical xs

  pub FieldsCanonical : Fields → Type 0
  FieldsCanonical end = Unit
  FieldsCanonical (field k v fs) = IsCanonical v × FieldsCanonical fs

-- How deep lists and maps nest in a value.
abbrev mutual
  pub nesting : Value → ℕ
  nesting (str s) = 0
  nesting (bytes s) = 0
  nesting (int n) = 0
  nesting (list xs) = suc (nesting_items xs)
  nesting (dict fs) = suc (nesting_fields fs)
  nesting other = 0

  pub nesting_items : Items → ℕ
  nesting_items nil = 0
  nesting_items (cons x xs) = max (nesting x) (nesting_items xs)

  pub nesting_fields : Fields → ℕ
  nesting_fields end = 0
  nesting_fields (field k v fs) = max (nesting v) (nesting_fields fs)
