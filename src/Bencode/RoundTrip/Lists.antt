-- ===== src/Bencode/RoundTrip/Lists.antt =====
-- internal/bencode: one round of the loops of `decodeList` and `decodeDict` on what the encoder
-- writes, and the end of the loops.
use jelly_torrent.Base.{
  ℕ, suc, ◌+◌, ◌≡◌, refl, ◌≢◌, inl, inr, [], ◌∷◌, ◌++◌, arith, Bytes, Bool-cases, ◌==◌,
}
use jelly_torrent.Strconv.Digits.{Head}
use jelly_torrent.Bencode.{Value, Items, nil, cons, Fields, put}
use jelly_torrent.Bencode.Decode.{
  Outcome, done, ◌>>=◌, wrap, Cursor, decode_string, decode_items, decode_fields, Kind, unknown,
  identify, dispatch, decode_at_depth,
}
use jelly_torrent.Bencode.Decode.Cursors.{cursor}

-- The encoding of a value begins with a byte that names its kind, and no kind is named by `e`.
pub identify-ne_e : (k : Kind) → k ≢ unknown → (c : ℕ) → identify c ≡ k → c ≢ b'e'
unfolding identify
identify-ne_e k h c e p = ground arith

module _ (total : ℕ) where
  pub decode_at_depth-Head :
      (levels i : ℕ) (k : Kind) (e s : Bytes)
      → Head (λ c. identify c ≡ k) e
      → decode_at_depth total (suc levels) (cursor i (e ++ s))
        ≡ dispatch total (decode_at_depth total levels) (cursor i (e ++ s)) k
  unfolding decode_at_depth
  decode_at_depth-Head levels i k [] s h = absurd h
  decode_at_depth-Head levels i k (c ∷ e) s h = rw h

module _ (total : ℕ) (decode_value : Cursor → Outcome (Value × Cursor)) (start : Cursor) where
  pub items_end :
      (fuel i : ℕ) (s : Bytes)
      → decode_items total decode_value (suc fuel) start (cursor i (b'e' ∷ s))
        ≡ done (nil, cursor (i + 1) s)
  unfolding decode_items
  items_end fuel i s = refl

  items_next :
      (fuel i c : ℕ) (s : Bytes)
      → c ≢ b'e'
      → decode_items total decode_value (suc fuel) start (cursor i (c ∷ s)) ≡ (
          wrap (λ _. start.index) (decode_value (cursor i (c ∷ s))) >>= λ r.
          decode_items total decode_value fuel start r.1 >>= λ r'. done (cons r.0 r'.0, r'.1))
  unfolding decode_items
  items_next fuel i c s h = elim (Bool-cases (c == b'e')) [
    | inl y ↦ absurd (h (ground arith))
    | inr n ↦ rw (n, decode_items)
  ]

  pub items_round :
      (fuel i j : ℕ) (e s : Bytes) (x : Value) (xs : Items) (c : Cursor)
      → Head (λ b. b ≢ b'e') e
      → decode_value (cursor i (e ++ s)) ≡ done (x, cursor j s)
      → decode_items total decode_value fuel start (cursor j s) ≡ done (xs, c)
      → decode_items total decode_value (suc fuel) start (cursor i (e ++ s)) ≡ done (cons x xs, c)
  items_round fuel i j [] s x xs c h p q = absurd h
  items_round fuel i j (b ∷ e) s x xs c h p q = rw (items_next fuel i b (e ++ s) h, p, q)

  pub fields_end :
      (fuel i : ℕ) (s : Bytes) (fs : Fields)
      → decode_fields total decode_value (suc fuel) start (cursor i (b'e' ∷ s)) fs
        ≡ done (fs, cursor (i + 1) s)
  unfolding decode_fields
  fields_end fuel i s fs = refl

  fields_next :
      (fuel i c : ℕ) (s : Bytes) (fs : Fields)
      → c ≢ b'e'
      → decode_fields total decode_value (suc fuel) start (cursor i (c ∷ s)) fs ≡ (
          wrap (λ i. i) (decode_string total (cursor i (c ∷ s))) >>= λ r.
          wrap (λ i. i) (decode_value r.1) >>= λ r'.
          decode_fields total decode_value fuel start r'.1 (put fs r.0 r'.0))
  unfolding decode_fields
  fields_next fuel i c s fs h = elim (Bool-cases (c == b'e')) [
    | inl y ↦ absurd (h (ground arith))
    | inr n ↦ rw (n, decode_fields)
  ]

  pub fields_round :
      (fuel i j l : ℕ) (d e s k : Bytes) (x : Value) (fs : Fields) (r : Outcome (Fields × Cursor))
      → Head (λ b. b ≢ b'e') d
      → decode_string total (cursor i (d ++ (e ++ s))) ≡ done (k, cursor j (e ++ s))
      → decode_value (cursor j (e ++ s)) ≡ done (x, cursor l s)
      → decode_fields total decode_value fuel start (cursor l s) (put fs k x) ≡ r
      → decode_fields total decode_value (suc fuel) start (cursor i (d ++ (e ++ s))) fs ≡ r
  fields_round fuel i j l [] e s k x fs r h p q t = absurd h
  fields_round fuel i j l (b ∷ d) e s k x fs r h p q t =
      rw (fields_next fuel i b (d ++ (e ++ s)) fs h, p, q) t
