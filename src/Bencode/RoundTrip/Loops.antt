-- ===== src/Bencode/RoundTrip/Loops.antt =====
-- internal/bencode: the loops of `decodeList` and `decodeDict` on the encoding of one element more.
use jelly_torrent.Base.{
  ℕ, suc, ◌+◌, ◌-◌, ◌≤◌, ◌≡◌, refl, sym, ap, ◌∙◌, ◌≢◌, ◌++◌, append_assoc, arith, Bytes, max_int,
  length, length-append,
}
use jelly_torrent.Strconv.Digits.{Head, Head-length}
use jelly_torrent.Bencode.{Value, Items, cons, Fields, field, put}
use jelly_torrent.Bencode.Encode.{encode_string}
use jelly_torrent.Bencode.Decode.{Outcome, done, Cursor, decode_items, decode_fields}
use jelly_torrent.Bencode.Decode.Cursors.{cursor}
use jelly_torrent.Bencode.RoundTrip.Atoms.{decode_string-encode_string}
use jelly_torrent.Bencode.RoundTrip.Lists.{items_round, fields_round}
use jelly_torrent.Bencode.RoundTrip.Maps.{Below, join, put-Below, join-put}

-- The lengths of an encoding in two parts, with what stands behind it.
pub length_parts :
    (a b e t : Bytes)
    → e ≡ a ++ b
    → (length e ≡ length a + length b)
      × (length (e ++ t) ≡ length a + length (b ++ t))
      × (length (b ++ t) ≡ length b + length t)
length_parts a b e t p =
    let l1 : length e ≡ length a + length b = ap length p ∙ length-append a b in
    (l1, omega (arith, length-append e t, length-append b t, l1), length-append b t)

module _ (total : ℕ) (decode_value : Cursor → Outcome (Value × Cursor)) (start : Cursor) where
  pub items_cons :
      (fuel i : ℕ) (d ds e t s : Bytes) (x : Value) (xs : Items)
      → e ≡ d ++ ds
      → Head (λ c. c ≢ b'e') d
      → length e ≤ fuel
      → decode_value (cursor i (d ++ (ds ++ t))) ≡ done (x, cursor (i + length d) (ds ++ t))
      → decode_items total decode_value (suc (fuel - 1)) start (cursor (i + length d) (ds ++ t))
        ≡ done (xs, cursor (i + length d + length ds + 1) s)
      → decode_items total decode_value (suc fuel) start (cursor i (e ++ t))
        ≡ done (cons x xs, cursor (i + length e + 1) s)
  items_cons fuel i d ds e t s x xs r h le p q =
      let l = length_parts d ds e t r in
      let round : suc (fuel - 1) ≡ fuel = omega (arith, Head-length _ d h, l.0) in
      let at : i + length d + length ds + 1 ≡ i + length e + 1 = omega (arith, l.0) in
      let q' : decode_items total decode_value fuel start (cursor (i + length d) (ds ++ t))
          ≡ done (xs, cursor (i + length e + 1) s) =
        rw (round, at) at q in
      rw (r, append_assoc d ds t)
        (rw (← r)
          (items_round total decode_value start fuel i (i + length d) d (ds ++ t) x xs _ h p q'))

  pub fields_cons :
      (fuel i : ℕ) (k d ds e t s : Bytes) (v : Value) (fs gs : Fields)
      → total ≤ max_int
      → i + length (e ++ t) ≡ total
      → e ≡ encode_string k ++ (d ++ ds)
      → Head (λ c. c ≢ b'e') (encode_string k)
      → Below k gs
      → length e ≤ fuel
      → decode_value (cursor (i + length (encode_string k)) (d ++ (ds ++ t)))
        ≡ done (v, cursor (i + length (encode_string k) + length d) (ds ++ t))
      → decode_fields total decode_value
          (suc (fuel - 1))
          start
          (cursor (i + length (encode_string k) + length d) (ds ++ t))
          (put gs k v)
        ≡ done (
          join (put gs k v) fs,
          cursor (i + length (encode_string k) + length d + length ds + 1) s,
        )
      → decode_fields total decode_value (suc fuel) start (cursor i (e ++ t)) gs
        ≡ done (join gs (field k v fs), cursor (i + length e + 1) s)
  fields_cons fuel i k d ds e t s v fs gs fits size r h below le p q =
      let key = encode_string k in
      let l = length_parts key (d ++ ds) e t r in
      let l' = length_parts d ds (d ++ ds) t refl in
      let round : suc (fuel - 1) ≡ fuel = omega (arith, Head-length _ key h, l.0) in
      let at : i + length key + length d + length ds + 1 ≡ i + length e + 1 =
        omega (arith, l.0, l'.0) in
      let whole : e ++ t ≡ key ++ (d ++ (ds ++ t)) =
        rw (r, append_assoc key (d ++ ds) t, append_assoc d ds t) refl in
      let joined : join (put gs k v) fs ≡ join gs (field k v fs) =
        rw (put-Below gs k v below) (join-put gs fs k v) in
      let q' : decode_fields total decode_value fuel start
            (cursor (i + length key + length d) (ds ++ t)) (put gs k v)
          ≡ done (join gs (field k v fs), cursor (i + length e + 1) s) =
        rw (round, at, joined) at q in
      rw whole (
        fields_round total decode_value start fuel i (i + length key) (i + length key + length d)
          key d (ds ++ t) k v gs _ h
          (decode_string-encode_string total i k (d ++ (ds ++ t)) fits
            (ap (λ w. i + length w) (sym whole) ∙ size))
          p q')
