-- ===== src/Bencode/RoundTrip/Steps.antt =====
-- internal/bencode: the cases of `decodeAtDepth` on each encoding.
use jelly_torrent.Base.{
  ℕ, suc, ◌+◌, ◌≤◌, ◌≡◌, ◌∙◌, true, false, [], ◌∷◌, ◌++◌, append_assoc, arith, Bytes, ℤ, IsInt,
  max_int, length, length-append,
}
use jelly_torrent.Base.Result.{ok, ok-injective}
use jelly_torrent.Strconv.{valid_utf8}
use jelly_torrent.Strconv.Digits.{Head}
use jelly_torrent.Bencode.{Value, str, bytes, int, list, dict, Items, Fields, end}
use jelly_torrent.Bencode.Encode.{encode, encode_string, encode_int}
use jelly_torrent.Bencode.Decode.{
  Outcome, done, Cursor, decode_items, decode_fields, as_text, text, number, sequence, mapping,
  identify, dispatch, decode_at_depth,
}
use jelly_torrent.Bencode.Decode.Cursors.{cursor}
use jelly_torrent.Bencode.RoundTrip.Atoms.{decode_string-encode_string, decode_int-encode_int}
use jelly_torrent.Bencode.RoundTrip.Lists.{decode_at_depth-Head}
use jelly_torrent.Bencode.RoundTrip.Parts.{kind, encode-Head}

module _ (total : ℕ) (fits : total ≤ max_int) where
  pub as_text-valid : (s : Bytes) → valid_utf8 s ≡ true → as_text total s ≡ str s
  unfolding as_text
  as_text-valid s h = rw h

  pub as_text-invalid : (s : Bytes) → valid_utf8 s ≡ false → as_text total s ≡ bytes s
  unfolding as_text
  as_text-invalid s h = rw h

  pub read_text :
      (dv : Cursor → Outcome (Value × Cursor)) (i : ℕ) (s r : Bytes) (v : Value)
      → i + length (encode_string s ++ r) ≡ total
      → as_text total s ≡ v
      → dispatch total dv (cursor i (encode_string s ++ r)) text
        ≡ done (v, cursor (i + length (encode_string s)) r)
  unfolding dispatch
  read_text dv i s r v h e = rw (decode_string-encode_string total i s r fits h, e)

  pub read_list :
      (dv : Cursor → Outcome (Value × Cursor)) (i : ℕ) (body s : Bytes) (xs : Items)
      → decode_items total dv
          (suc (length (body ++ b'e' ∷ s)))
          (cursor i (b'l' ∷ (body ++ b'e' ∷ s)))
          (cursor (i + 1) (body ++ b'e' ∷ s))
        ≡ done (xs, cursor (i + 1 + length body + 1) s)
      → dispatch total dv (cursor i (b'l' ∷ (body ++ b'e' ∷ s))) sequence
        ≡ done (list xs, cursor (i + length (b'l' ∷ (body ++ b'e' ∷ []))) s)
  unfolding dispatch
  read_list dv i body s xs h =
      let at : i + 1 + length body + 1 ≡ i + length (b'l' ∷ (body ++ b'e' ∷ [])) =
        omega (arith, length-append body (b'e' ∷ [])) in
      rw (h, at)

  pub read_dict :
      (dv : Cursor → Outcome (Value × Cursor)) (i : ℕ) (body s : Bytes) (fs : Fields)
      → decode_fields total dv
          (suc (length (body ++ b'e' ∷ s)))
          (cursor i (b'd' ∷ (body ++ b'e' ∷ s)))
          (cursor (i + 1) (body ++ b'e' ∷ s))
          end
        ≡ done (fs, cursor (i + 1 + length body + 1) s)
      → dispatch total dv (cursor i (b'd' ∷ (body ++ b'e' ∷ s))) mapping
        ≡ done (dict fs, cursor (i + length (b'd' ∷ (body ++ b'e' ∷ []))) s)
  unfolding dispatch
  read_dict dv i body s fs h =
      let at : i + 1 + length body + 1 ≡ i + length (b'd' ∷ (body ++ b'e' ∷ [])) =
        omega (arith, length-append body (b'e' ∷ [])) in
      rw (h, at)

  pub read_number :
      (dv : Cursor → Outcome (Value × Cursor)) (i : ℕ) (n : ℤ) (r : Bytes)
      → IsInt n
      → dispatch total dv (cursor i (encode_int n ++ r)) number
        ≡ done (int n, cursor (i + length (encode_int n)) r)
  unfolding dispatch
  read_number dv i n r h = decode_int-encode_int total i n r h

  pub at_text :
      (l i : ℕ) (b e s : Bytes) (v : Value)
      → Head (λ c. identify c ≡ text) e
      → encode_string b ≡ e
      → as_text total b ≡ v
      → i + length (e ++ s) ≡ total
      → decode_at_depth total (suc l) (cursor i (e ++ s)) ≡ done (v, cursor (i + length e) s)
  at_text l i b e s v h p q t =
      decode_at_depth-Head total l i text e s h
      ∙ rw (← p) (read_text (decode_at_depth total l) i b s v (rw p t) q)

  pub at_int :
      (l i : ℕ) (z : ℤ) (e s : Bytes)
      → IsInt z
      → encode (int z) ≡ ok e
      → decode_at_depth total (suc l) (cursor i (e ++ s)) ≡ done (int z, cursor (i + length e) s)
  unfolding kind encode
  at_int l i z e s c h =
      decode_at_depth-Head total l i number e s (encode-Head (int z) e h)
      ∙ rw (← ok-injective h) (read_number (decode_at_depth total l) i z s c)

  pub at_list :
      (l i : ℕ) (xs : Items) (e body s : Bytes)
      → encode (list xs) ≡ ok e
      → e ≡ b'l' ∷ (body ++ b'e' ∷ [])
      → decode_items total
          (decode_at_depth total l)
          (suc (length (body ++ b'e' ∷ s)))
          (cursor i (b'l' ∷ (body ++ b'e' ∷ s)))
          (cursor (i + 1) (body ++ b'e' ∷ s))
        ≡ done (xs, cursor (i + 1 + length body + 1) s)
      → decode_at_depth total (suc l) (cursor i (e ++ s)) ≡ done (list xs, cursor (i + length e) s)
  unfolding kind
  at_list l i xs e body s h p q =
      decode_at_depth-Head total l i sequence e s (encode-Head (list xs) e h)
      ∙ rw (p, append_assoc body (b'e' ∷ []) s) (read_list (decode_at_depth total l) i body s xs q)

  pub at_dict :
      (l i : ℕ) (fs : Fields) (e body s : Bytes)
      → encode (dict fs) ≡ ok e
      → e ≡ b'd' ∷ (body ++ b'e' ∷ [])
      → decode_fields total
          (decode_at_depth total l)
          (suc (length (body ++ b'e' ∷ s)))
          (cursor i (b'd' ∷ (body ++ b'e' ∷ s)))
          (cursor (i + 1) (body ++ b'e' ∷ s))
          end
        ≡ done (fs, cursor (i + 1 + length body + 1) s)
      → decode_at_depth total (suc l) (cursor i (e ++ s)) ≡ done (dict fs, cursor (i + length e) s)
  unfolding kind
  at_dict l i fs e body s h p q =
      decode_at_depth-Head total l i mapping e s (encode-Head (dict fs) e h)
      ∙ rw (p, append_assoc body (b'e' ∷ []) s) (read_dict (decode_at_depth total l) i body s fs q)

  pub at_str :
      (l i : ℕ) (b e s : Bytes)
      → valid_utf8 b ≡ true
      → encode (str b) ≡ ok e
      → i + length (e ++ s) ≡ total
      → decode_at_depth total (suc l) (cursor i (e ++ s)) ≡ done (str b, cursor (i + length e) s)
  unfolding kind encode
  at_str l i b e s c h =
      at_text l i b e s (str b) (encode-Head (str b) e h) (ok-injective h) (as_text-valid b c)

  pub at_bytes :
      (l i : ℕ) (b e s : Bytes)
      → valid_utf8 b ≡ false
      → encode (bytes b) ≡ ok e
      → i + length (e ++ s) ≡ total
      → decode_at_depth total (suc l) (cursor i (e ++ s)) ≡ done (bytes b, cursor (i + length e) s)
  unfolding kind encode
  at_bytes l i b e s c h =
      at_text l i b e s (bytes b) (encode-Head (bytes b) e h) (ok-injective h) (as_text-invalid b c)
