-- ===== src/Bencode/Decode/Progress.antt =====
-- internal/bencode/decode.go: the decoder always ends, and where it ends.
use jelly_torrent.Base.{
  ℕ, zero, suc, ◌+◌, ◌≤◌, ◌<◌, ◌≢◌, refl, inl, inr, [], ◌∷◌, arith, Bytes, length, drop,
  length-drop, ◌==◌, Bool-cases,
}
use native.Mathlib.Nat.{le_refl}
use jelly_torrent.Bencode.{Value, list, dict, Fields, end, put}
use jelly_torrent.Bencode.Decode.{
  Outcome, done, failed, out_of_fuel, decode_error, Cursor, ◌>>=◌, wrap, decode_items,
  decode_fields, Kind, text, number, sequence, mapping, unknown, identify, dispatch,
  decode_at_depth, decode_at, decode, as_text, max_decode_depth,
}
use jelly_torrent.Bencode.Decode.Cursors.{
  cursor, InInput, Moves, skip-InInput, decode_string-Moves, decode_int-Moves,
}

module _ (input : Bytes) (c : Cursor) where
  Moves-wrap :
      {A : Type 0} (p : ℕ → ℕ) (m : Outcome (A × Cursor))
      → Moves input c m
      → Moves input c (wrap p m)
  Moves-wrap p (done (a, c')) h = h
  Moves-wrap p (failed (decode_error i r)) h = tt
  Moves-wrap p out_of_fuel h = h

  -- A reader that goes on behind another moves too.
  Moves-bind :
      {A B : Type 0} (m : Outcome (A × Cursor)) (f : A × Cursor → Outcome (B × Cursor))
      → Moves input c m
      → ((a : A) (c' : Cursor)
          → InInput input c'
          → length c'.rest < length c.rest
          → Moves input c (f (a, c')))
      → Moves input c (m >>= f)
  Moves-bind (done (a, c')) f (h, lt) k = k a c' h lt
  Moves-bind (failed e) f h k = tt
  Moves-bind out_of_fuel f h k = h

  Moves-map :
      {A B : Type 0} (m : Outcome (A × Cursor)) (f : A → B)
      → Moves input c m
      → Moves input c (m >>= λ r. done (f r.0, r.1))
  Moves-map m f h = Moves-bind m _ h λ a c' h' lt. (h', lt)

  Moves-later :
      {A : Type 0} (c' : Cursor) (m : Outcome (A × Cursor))
      → length c'.rest ≤ length c.rest
      → Moves input c' m
      → Moves input c m
  Moves-later c' (done (a, d)) le (h, lt) = (h, omega arith)
  Moves-later c' (failed e) le h = tt
  Moves-later c' out_of_fuel le h = h

module _ (input : Bytes) (decode_value : Cursor → Outcome (Value × Cursor))
    (reads : (c : Cursor) → InInput input c → Moves input c (decode_value c)) (start : Cursor) where
  decode_items-Moves :
      (fuel : ℕ) (i : ℕ) (s : Bytes)
      → InInput input (cursor i s)
      → length s < fuel
      → Moves input (cursor i s) (decode_items (length input) decode_value fuel start (cursor i s))
  unfolding decode_items
  decode_items-Moves zero i s h lt = absurd (omega arith)
  decode_items-Moves (suc fuel) i [] h lt = tt
  decode_items-Moves (suc fuel) i (b ∷ s) h lt = elim (Bool-cases (b == b'e')) [
    | inl e ↦ rw (e, Moves) (skip-InInput input (cursor i (b ∷ s)) h (omega arith), le_refl _)
    | inr e ↦
        rw (e, Moves)
          (Moves-bind input (cursor i (b ∷ s)) _ _
            (Moves-wrap input (cursor i (b ∷ s)) _ _ (reads _ h))
            λ v c' h' lt'.
              Moves-bind input (cursor i (b ∷ s)) _ _
                (Moves-later input (cursor i (b ∷ s)) c' _ (omega arith)
                  (decode_items-Moves fuel c'.index c'.rest h' (omega arith)))
                λ vs c'' h'' lt''. (h'', lt''))
  ]

  decode_fields-Moves :
      (fuel : ℕ) (i : ℕ) (s : Bytes) (fs : Fields)
      → InInput input (cursor i s)
      → length s < fuel
      → Moves input
          (cursor i s)
          (decode_fields (length input) decode_value fuel start (cursor i s) fs)
  unfolding decode_fields
  decode_fields-Moves zero i s fs h lt = absurd (omega arith)
  decode_fields-Moves (suc fuel) i [] fs h lt = tt
  decode_fields-Moves (suc fuel) i (b ∷ s) fs h lt = elim (Bool-cases (b == b'e')) [
    | inl e ↦ rw (e, Moves) (skip-InInput input (cursor i (b ∷ s)) h (omega arith), le_refl _)
    | inr e ↦
        rw (e, Moves)
          (Moves-bind input (cursor i (b ∷ s)) _ _
            (Moves-wrap input (cursor i (b ∷ s)) _ _ (decode_string-Moves input _ h))
            λ k c' h' lt'.
              Moves-bind input (cursor i (b ∷ s)) _ _
                (Moves-later input (cursor i (b ∷ s)) c' _ (omega arith)
                  (Moves-wrap input c' _ _ (reads c' h')))
                λ v c'' h'' lt''.
                  Moves-later input (cursor i (b ∷ s)) c'' _ (omega arith)
                    (decode_fields-Moves fuel c''.index c''.rest (put fs k v) h'' (omega arith)))
  ]

module _ (input : Bytes) (decode_value : Cursor → Outcome (Value × Cursor))
    (reads : (c : Cursor) → InInput input c → Moves input c (decode_value c)) where
  dispatch-Moves :
      (i b : ℕ) (s : Bytes) (k : Kind)
      → InInput input (cursor i (b ∷ s))
      → Moves input (cursor i (b ∷ s)) (dispatch (length input) decode_value (cursor i (b ∷ s)) k)
  unfolding dispatch
  dispatch-Moves i b s text h =
      Moves-map input (cursor i (b ∷ s)) _ (as_text (length input)) (decode_string-Moves input _ h)
  dispatch-Moves i b s number h = decode_int-Moves input (cursor i (b ∷ s)) h
  dispatch-Moves i b s sequence h = Moves-map input (cursor i (b ∷ s)) _ list (
      Moves-later input (cursor i (b ∷ s)) (cursor (i + 1) s) _ (omega arith) (
        decode_items-Moves input decode_value reads (cursor i (b ∷ s)) (suc (length s)) (i + 1) s
          (skip-InInput input (cursor i (b ∷ s)) h (omega arith)) (omega arith)))
  dispatch-Moves i b s mapping h = Moves-map input (cursor i (b ∷ s)) _ dict (
      Moves-later input (cursor i (b ∷ s)) (cursor (i + 1) s) _ (omega arith) (
        decode_fields-Moves input decode_value reads (cursor i (b ∷ s)) (suc (length s)) (i + 1) s
          end (skip-InInput input (cursor i (b ∷ s)) h (omega arith)) (omega arith)))
  dispatch-Moves i b s unknown h = tt

decode_at_depth-Moves :
    (input : Bytes) (levels i : ℕ) (s : Bytes)
    → InInput input (cursor i s)
    → Moves input (cursor i s) (decode_at_depth (length input) levels (cursor i s))
unfolding decode_at_depth
decode_at_depth-Moves input zero i s h = tt
decode_at_depth-Moves input (suc levels) i [] h = tt
decode_at_depth-Moves input (suc levels) i (b ∷ s) h =
    dispatch-Moves input (decode_at_depth (length input) levels)
      (λ c. decode_at_depth-Moves input levels c.index c.rest) i b s (identify b) h

start-InInput : (input : Bytes) (i : ℕ) → i ≤ length input → InInput input (cursor i (drop i input))
start-InInput input i le = record { rest_eq = refl; total_eq = omega (arith, length-drop i input) }

-- From a start inside the input, `DecodeAt` ends, with an error or with a cursor that lies behind the
-- start and not past the end of the input, and whose rest is the input from its index on.
pub decode_at-Moves :
    (input : Bytes) (i : ℕ)
    → i ≤ length input
    → Moves input (cursor i (drop i input)) (decode_at input i)
unfolding decode_at
decode_at-Moves input i le =
    decode_at_depth-Moves input (suc max_decode_depth) i (drop i input) (start-InInput input i le)

Moves-ends :
    (input : Bytes) (c : Cursor) (m : Outcome (Value × Cursor))
    → Moves input c m
    → (m >>= λ r. done r.0) ≢ out_of_fuel
Moves-ends input c (done r) h e = cc
Moves-ends input c (failed r) h e = cc
Moves-ends input c out_of_fuel h e = h

-- `Decode` ends on every input: no loop of it runs out of rounds.
pub decode-ends : (input : Bytes) → decode input ≢ out_of_fuel
unfolding decode
decode-ends input =
    Moves-ends input (cursor 0 input) (decode_at input 0) (decode_at-Moves input 0 (omega arith))
