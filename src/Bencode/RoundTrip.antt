-- ===== src/Bencode/RoundTrip.antt =====
-- internal/bencode: decoding what was encoded gives the value back.
pub mod Atoms
pub mod Lists
pub mod Maps
pub mod Loops
pub mod Parts
pub mod Steps
use native.Mathlib.Nat.{zero-add}
use jelly_torrent.Base.{
  ℕ, zero, suc, ◌+◌, ◌-◌, ◌≤◌, ◌<◌, ◌≡◌, refl, sym, ap, ◌∙◌, ◌≢◌, true, false, List, [], ◌∷◌, ◌++◌,
  append_assoc, append-nil, arith, Bytes, IsInt, max_int, length, length-append, if◌then◌else◌,
}
use jelly_torrent.Base.Result.{Result, ok, err, bind-ok, ok-injective}
use jelly_torrent.Strconv.{valid_utf8}
use jelly_torrent.Strconv.Digits.{Head, Head-length}
use jelly_torrent.Bencode.{
  Value, str, bytes, int, list, dict, other, Items, nil, cons, Fields, end, field, put,
}
use jelly_torrent.Bencode.Canonical.{
  KeysRise, IsCanonical, AreCanonical, FieldsCanonical, nesting, nesting_items, nesting_fields,
}
use jelly_torrent.Bencode.Encode.{
  Entry, encode, encode_items, encode_fields, encode_string, encode_int, write_entries,
  sort_entries,
}
use jelly_torrent.Bencode.Encode.Order.{sort_entries-sorted}
use jelly_torrent.Bencode.Decode.{
  Outcome, done, ◌>>=◌, Cursor, decode_string, decode_int, decode_items, decode_fields, as_text,
  Kind, text, number, sequence, mapping, unknown, identify, dispatch, decode_at_depth, decode_at,
  decode, decode_at, max_decode_depth,
}
use jelly_torrent.Bencode.Decode.Cursors.{cursor}
use jelly_torrent.Bencode.RoundTrip.Atoms.{
  decode_string-encode_string, decode_int-encode_int, encode_string-Head,
}
use jelly_torrent.Bencode.RoundTrip.Lists.{
  identify-ne_e, decode_at_depth-Head, items_end, items_round, fields_end, fields_round,
}
use jelly_torrent.Bencode.RoundTrip.Maps.{
  Ready, join, join-end, put-Below, join-put, Ready-put, Ready-end, KeysRise-tail,
  encode_fields-IsSorted,
}
use jelly_torrent.Bencode.RoundTrip.Parts.{
  encode-list, encode-dict, encode-cons, encode-field, encode-Head_open, encode_string-Head_open,
  write_entries-cons, encode_items-nil, encode_fields-end, write_entries-nil,
}
use jelly_torrent.Bencode.RoundTrip.Steps.{at_str, at_bytes, at_int, at_list, at_dict}
use jelly_torrent.Bencode.RoundTrip.Loops.{length_parts, items_cons, fields_cons}
use mathlib.Core.Path.{ap₂}

inner_size :
    (total i b : ℕ) (e body s : Bytes)
    → e ≡ b ∷ (body ++ b'e' ∷ [])
    → i + length (e ++ s) ≡ total
    → i + 1 + length (body ++ b'e' ∷ s) ≡ total
inner_size total i b e body s p t = omega (
  arith,
  length-append e s,
  ap length p,
  length-append body (b'e' ∷ []),
  length-append body (b'e' ∷ s),
)

module _ (total : ℕ) (fits : total ≤ max_int) where
  mutual
    value_read :
        (v : Value) (l i : ℕ) (e s : Bytes)
        → IsCanonical v
        → nesting v ≤ l
        → encode v ≡ ok e
        → i + length (e ++ s) ≡ total
        → decode_at_depth total (suc l) (cursor i (e ++ s)) ≡ done (v, cursor (i + length e) s)
    value_read (str b) l i e s c n h t = at_str total fits l i b e s c h t
    value_read (bytes b) l i e s c n h t = at_bytes total fits l i b e s c h t
    value_read (int z) l i e s c n h t = at_int total fits l i z e s c h
    value_read (list xs) zero i e s c n h t = absurd (omega arith)
    value_read (list xs) (suc l) i e s c n h t =
        let (body, p, q) = encode-list xs e h in
        at_list total fits (suc l) i xs e body s h q (
          items_read xs l (i + 1) body s (length (body ++ b'e' ∷ s))
            (cursor i (b'l' ∷ (body ++ b'e' ∷ s))) c (omega arith) p
            (inner_size total i b'l' e body s q t) (omega (arith, length-append body (b'e' ∷ s))))
    value_read (dict fs) zero i e s c n h t = absurd (omega arith)
    value_read (dict fs) (suc l) i e s c n h t =
        let (es, p, q) = encode-dict fs e c.0 h in
        let body = write_entries es in
        at_dict total fits (suc l) i fs e body s h q (
          fields_read fs end l (i + 1) es s (length (body ++ b'e' ∷ s))
            (cursor i (b'd' ∷ (body ++ b'e' ∷ s))) c.1 c.0 (Ready-end fs) (omega arith) p
            (inner_size total i b'd' e body s q t) (omega (arith, length-append body (b'e' ∷ s))))
    value_read other l i e s c n h t = absurd c

    items_read :
        (xs : Items) (l i : ℕ) (e s : Bytes) (fuel : ℕ) (start : Cursor)
        → AreCanonical xs
        → nesting_items xs ≤ l
        → encode_items xs ≡ ok e
        → i + length (e ++ b'e' ∷ s) ≡ total
        → length e ≤ fuel
        → decode_items total
            (decode_at_depth total (suc l))
            (suc fuel)
            start
            (cursor i (e ++ b'e' ∷ s))
          ≡ done (xs, cursor (i + length e + 1) s)
    items_read nil l i e s fuel start c n h t f =
        let none_left = encode_items-nil e h in
        let at : i + 1 ≡ i + 0 + 1 = omega arith in
        rw none_left (
          items_end total (decode_at_depth total (suc l)) start fuel i s
          ∙ ap (λ k. done (nil, cursor k s)) at)
    items_read (cons x xs) l i e s fuel start c n h t f =
        let (d, ds, p, q, r) = encode-cons x xs e h in
        let sizes = length_parts d ds e (b'e' ∷ s) r in
        let opens = encode-Head_open x d c.0 p in
        items_cons total (decode_at_depth total (suc l)) start fuel i d ds e (b'e' ∷ s) s x xs r
          opens f
          (value_read x l i d (ds ++ b'e' ∷ s) c.0 (omega arith) p
            (omega (arith, sizes.1, length-append d (ds ++ b'e' ∷ s))))
          (items_read xs l (i + length d) ds s (fuel - 1) start c.1 (omega arith) q
            (omega (arith, sizes.1)) (omega (arith, sizes.0, Head-length _ d opens)))

    fields_read :
        (fs gs : Fields) (l i : ℕ) (es : List Entry) (s : Bytes) (fuel : ℕ) (start : Cursor)
        → FieldsCanonical fs
        → KeysRise fs
        → Ready gs fs
        → nesting_fields fs ≤ l
        → encode_fields fs ≡ ok es
        → i + length (write_entries es ++ b'e' ∷ s) ≡ total
        → length (write_entries es) ≤ fuel
        → decode_fields total
            (decode_at_depth total (suc l))
            (suc fuel)
            start
            (cursor i (write_entries es ++ b'e' ∷ s))
            gs
          ≡ done (join gs fs, cursor (i + length (write_entries es) + 1) s)
    fields_read end gs l i es s fuel start c k r n h t f =
        let none_left : write_entries es ≡ [] =
          ap write_entries (encode_fields-end es h) ∙ write_entries-nil in
        let at : i + 1 ≡ i + 0 + 1 = omega arith in
        rw none_left (
          fields_end total (decode_at_depth total (suc l)) start fuel i s gs
          ∙ ap₂ (λ m k. done (m, cursor k s)) (sym (join-end gs)) at)
    fields_read (field k v fs) gs l i es s fuel start c rise r n h t f =
        let (d, ds, p, q, eq) = encode-field k v fs es h in
        let body = write_entries ds in
        let key = encode_string k in
        let whole : write_entries es ≡ key ++ (d ++ body) =
          ap write_entries eq ∙ write_entries-cons k d ds in
        let sizes = length_parts key (d ++ body) (write_entries es) (b'e' ∷ s) whole in
        let sizes' = length_parts d body (d ++ body) (b'e' ∷ s) refl in
        let opens = encode_string-Head_open k in
        fields_cons total (decode_at_depth total (suc l)) start fuel i k d body (write_entries es)
          (b'e' ∷ s) s v fs gs fits t whole opens r f
          (value_read v l (i + length key) d (body ++ b'e' ∷ s) c.0 (omega arith) p
            (omega (arith, sizes.1, sizes'.1, length-append d (body ++ b'e' ∷ s))))
          (fields_read fs (put gs k v) l (i + length key + length d) ds s (fuel - 1) start c.1
            (KeysRise-tail k fs rise) (Ready-put gs fs k v r rise) (omega arith) q
            (omega (arith, sizes.1, sizes'.1))
            (omega (arith, sizes.0, sizes'.0, Head-length _ key opens)))

-- Decoding an encoding gives the value back, for every canonical value that nests at most
-- `max_decode_depth` deep and whose encoding is no longer than an int can count.
pub decode-encode :
    (v : Value) (e : Bytes)
    → IsCanonical v
    → nesting v ≤ max_decode_depth
    → length e ≤ max_int
    → encode v ≡ ok e
    → decode e ≡ done v
unfolding decode
decode-encode v e c n fits h =
    let read =
      value_read (length e) fits v max_decode_depth 0 e [] c n h
        (omega (arith, length-append e [])) in
    rw (rw (append-nil e) at read)

-- The same at the front of a longer text: the value, and the place behind it.
pub decode_at-encode :
    (v : Value) (e s : Bytes)
    → IsCanonical v
    → nesting v ≤ max_decode_depth
    → length (e ++ s) ≤ max_int
    → encode v ≡ ok e
    → decode_at (e ++ s) 0 ≡ done (v, cursor (length e) s)
unfolding decode_at
decode_at-encode v e s c n fits h =
    value_read (length (e ++ s)) fits v max_decode_depth 0 e s c n h (omega arith)
    ∙ ap (λ k. done (v, cursor k s)) (zero-add (length e))
