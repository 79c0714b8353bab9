-- ===== src/Bencode/RoundTrip/Maps.antt =====
-- internal/bencode: reading the entries of a map in the order of their keys.
use jelly_torrent.Base.{
  ◌≡◌, refl, ap, inl, inr, true, Bytes, bytes_eq, bytes_eq_sound, bytes_ltb, bytes_ltb_irrefl,
  bytes_ltb_trans, Bool-cases, List,
}
use jelly_torrent.Base.Result.{ok, bind-ok, ok-injective}
use jelly_torrent.Bencode.{Value, Fields, end, field, put}
use jelly_torrent.Bencode.Canonical.{Rising, KeysRise}
use jelly_torrent.Bencode.Encode.{Entry, encode, encode_fields}
use jelly_torrent.Bencode.Encode.Order.{Chain, IsSorted}

-- Every key is below `k`.
abbrev pub Below : Bytes → Fields → Type 0
Below k end = Unit
Below k (field j v fs) = (bytes_ltb j k ≡ true) × Below k fs

-- The entries so far stay below the entries to come.
abbrev pub Ready : Fields → Fields → Type 0
Ready fs end = Unit
Ready fs (field k v gs) = Below k fs

abbrev pub join : Fields → Fields → Fields
join end gs = gs
join (field k v fs) gs = field k v (join fs gs)

pub join-end : (fs : Fields) → join fs end ≡ fs
join-end end = refl
join-end (field k v fs) = ap (field k v) (join-end fs)

-- A key above all the others is a new last entry.
pub put-Below :
    (fs : Fields) (k : Bytes) (v : Value) → Below k fs → put fs k v ≡ join fs (field k v end)
unfolding put
put-Below end k v h = refl
put-Below (field j w fs) k v (lt, h) = elim (Bool-cases (bytes_eq j k)) [
  | inl e ↦ absurd (irrefl_at j k (bytes_eq_sound j k e) lt)
  | inr n ↦ rw (n, put-Below fs k v h)
]
  where
    irrefl_at : (a b : Bytes) → a ≡ b → bytes_ltb a b ≡ true → ⊥
    irrefl_at a b e lt = cc (bytes_ltb_irrefl a)

pub join-put :
    (fs gs : Fields) (k : Bytes) (v : Value)
    → join (join fs (field k v end)) gs ≡ join fs (field k v gs)
join-put end gs k v = refl
join-put (field j w fs) gs k v = ap (field j w) (join-put fs gs k v)

Below-up : (fs : Fields) (k j : Bytes) → bytes_ltb k j ≡ true → Below k fs → Below j fs
Below-up end k j lt h = tt
Below-up (field i w fs) k j lt (le, h) = (bytes_ltb_trans i k j le lt, Below-up fs k j lt h)

Below-join :
    (fs : Fields) (k j : Bytes) (v : Value)
    → bytes_ltb k j ≡ true
    → Below j fs
    → Below j (join fs (field k v end))
Below-join end k j v lt h = (lt, tt)
Below-join (field i w fs) k j v lt (le, h) = (le, Below-join fs k j v lt h)

pub Ready-put :
    (fs gs : Fields) (k : Bytes) (v : Value) → Below k fs → Rising k gs → Ready (put fs k v) gs
Ready-put fs end k v h r = tt
Ready-put fs (field j w gs) k v h (lt, r) =
    rw (put-Below fs k v h) (Below-join fs k j v lt (Below-up fs k j lt h))

pub KeysRise-tail : (k : Bytes) (fs : Fields) → Rising k fs → KeysRise fs
KeysRise-tail k end h = tt
KeysRise-tail k (field j v fs) h = h.1

encode_fields-Chain :
    (k : Bytes) (fs : Fields) (es : List Entry)
    → Rising k fs
    → encode_fields fs ≡ ok es
    → Chain k es
unfolding encode
encode_fields-Chain k end es h e = rw (← ok-injective e) tt
encode_fields-Chain k (field j v fs) es (lt, h) e =
    let (d, p, q) = bind-ok (encode v) _ e in
    let (ds, p', q') = bind-ok (encode_fields fs) _ q in
    rw (← ok-injective q') (lt, encode_fields-Chain j fs ds h p')

pub encode_fields-IsSorted :
    (fs : Fields) (es : List Entry) → KeysRise fs → encode_fields fs ≡ ok es → IsSorted es
unfolding encode
encode_fields-IsSorted end es h e = rw (← ok-injective e) tt
encode_fields-IsSorted (field k v fs) es h e =
    let (d, p, q) = bind-ok (encode v) _ e in
    let (ds, p', q') = bind-ok (encode_fields fs) _ q in
    rw (← ok-injective q') (encode_fields-Chain k fs ds h p')

pub Ready-end : (fs : Fields) → Ready end fs
Ready-end end = tt
Ready-end (field k v fs) = tt
