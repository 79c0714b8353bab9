-- ===== src/Bencode/Texts/Normal.antt =====
-- internal/bencode: what becomes of a value that is encoded and decoded.
use jelly_torrent.Base.{◌≡◌, refl, ◌∙◌, Bytes, IsInt, arith}
use jelly_torrent.Base.Result.{ok}
use jelly_torrent.Bencode.{
  Value, str, bytes, int, list, dict, other, Items, nil, cons, Fields, end, field,
}
use jelly_torrent.Bencode.Canonical.{
  IsCanonical, AreCanonical, FieldsCanonical, KeysRise, Rising, nesting, nesting_items,
  nesting_fields,
}
use jelly_torrent.Bencode.Encode.{encode, encode_items, encode_fields}
use jelly_torrent.Bencode.Texts.{
  text, text-IsCanonical, text-nesting, encode-text, canonical-encodes,
}

-- The decoder tells a string from a []byte by whether the bytes are UTF-8.
abbrev mutual
  pub normal : Value → Value
  normal (str s) = text s
  normal (bytes s) = text s
  normal (int n) = int n
  normal (list xs) = list (normal_items xs)
  normal (dict fs) = dict (normal_fields fs)
  normal other = other

  pub normal_items : Items → Items
  normal_items nil = nil
  normal_items (cons x xs) = cons (normal x) (normal_items xs)

  pub normal_fields : Fields → Fields
  normal_fields end = end
  normal_fields (field k v fs) = field k (normal v) (normal_fields fs)

-- A value that the program writes: every int is in range, and the entries of a map are listed in the
-- order of their keys. Strings are any bytes.
abbrev mutual
  pub IsWritten : Value → Type 0
  IsWritten (str s) = Unit
  IsWritten (bytes s) = Unit
  IsWritten (int n) = IsInt n
  IsWritten (list xs) = AreWritten xs
  IsWritten (dict fs) = KeysRise fs × FieldsWritten fs
  IsWritten other = ⊥

  pub AreWritten : Items → Type 0
  AreWritten nil = Unit
  AreWritten (cons x xs) = IsWritten x × AreWritten xs

  pub FieldsWritten : Fields → Type 0
  FieldsWritten end = Unit
  FieldsWritten (field k v fs) = IsWritten v × FieldsWritten fs

normal-Rising : (k : Bytes) (fs : Fields) → Rising k fs → Rising k (normal_fields fs)
normal-Rising k end h = h
normal-Rising k (field j v fs) (h, hs) = (h, normal-Rising j fs hs)

normal-KeysRise : (fs : Fields) → KeysRise fs → KeysRise (normal_fields fs)
normal-KeysRise end h = h
normal-KeysRise (field k v fs) h = normal-Rising k fs h

mutual
  pub normal-IsCanonical : (v : Value) → IsWritten v → IsCanonical (normal v)
  normal-IsCanonical (str s) h = text-IsCanonical s
  normal-IsCanonical (bytes s) h = text-IsCanonical s
  normal-IsCanonical (int n) h = h
  normal-IsCanonical (list xs) h = normal_items-AreCanonical xs h
  normal-IsCanonical (dict fs) (rise, h) = (normal-KeysRise fs rise, normal_fields-Canonical fs h)
  normal-IsCanonical other h = absurd h

  normal_items-AreCanonical : (xs : Items) → AreWritten xs → AreCanonical (normal_items xs)
  normal_items-AreCanonical nil h = tt
  normal_items-AreCanonical (cons x xs) (h, hs) =
      (normal-IsCanonical x h, normal_items-AreCanonical xs hs)

  normal_fields-Canonical : (fs : Fields) → FieldsWritten fs → FieldsCanonical (normal_fields fs)
  normal_fields-Canonical end h = tt
  normal_fields-Canonical (field k v fs) (h, hs) =
      (normal-IsCanonical v h, normal_fields-Canonical fs hs)

mutual
  pub nesting-normal : (v : Value) → nesting (normal v) ≡ nesting v
  nesting-normal (str s) = text-nesting s
  nesting-normal (bytes s) = text-nesting s
  nesting-normal (int n) = refl
  nesting-normal (list xs) = omega (arith, nesting-normal_items xs)
  nesting-normal (dict fs) = omega (arith, nesting-normal_fields fs)
  nesting-normal other = refl

  nesting-normal_items : (xs : Items) → nesting_items (normal_items xs) ≡ nesting_items xs
  nesting-normal_items nil = refl
  nesting-normal_items (cons x xs) = rw (nesting-normal x, nesting-normal_items xs) refl

  nesting-normal_fields : (fs : Fields) → nesting_fields (normal_fields fs) ≡ nesting_fields fs
  nesting-normal_fields end = refl
  nesting-normal_fields (field k v fs) = rw (nesting-normal v, nesting-normal_fields fs) refl

encode-bytes : (s : Bytes) → encode (bytes s) ≡ encode (str s)
unfolding encode
encode-bytes s = refl

mutual
  unfolding encode

  pub encode-normal : (v : Value) → encode v ≡ encode (normal v)
  encode-normal (str s) = encode-text s
  encode-normal (bytes s) = encode-text s
  encode-normal (int n) = refl
  encode-normal (list xs) = rw (encode_items-normal xs) refl
  encode-normal (dict fs) = rw (encode_fields-normal fs) refl
  encode-normal other = refl

  encode_items-normal : (xs : Items) → encode_items xs ≡ encode_items (normal_items xs)
  encode_items-normal nil = refl
  encode_items-normal (cons x xs) = rw (encode-normal x, encode_items-normal xs) refl

  encode_fields-normal : (fs : Fields) → encode_fields fs ≡ encode_fields (normal_fields fs)
  encode_fields-normal end = refl
  encode_fields-normal (field k v fs) = rw (encode-normal v, encode_fields-normal fs) refl

pub written-encodes : (v : Value) → IsWritten v → (e : Bytes) × (encode v ≡ ok e)
written-encodes v h =
    let (e, p) = canonical-encodes (normal v) (normal-IsCanonical v h) in (e, encode-normal v ∙ p)
