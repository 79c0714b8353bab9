-- ===== src/Bencode/Decode.antt =====
-- internal/bencode/decode.go. A position in the input is a cursor: the index, and the bytes from
-- there on; `total` is the length of the input. The text `Context` of an error is left out.
pub mod Cursors
pub mod Progress
use jelly_torrent.Base.{
  ℕ, zero, suc, ◌+◌, ◌-◌, Bool, true, false, ◌&&◌, ◌||◌, Option, none, some, [], ◌∷◌, ◌++◌, ◌≡◌,
  refl, Bytes, codes, bytes_eq, ℤ, pos, negsuc, length, take, drop, ltb, leb, ◌==◌, if◌then◌else◌,
}
use jelly_torrent.Base.Result.{Result, ok, err}
use jelly_torrent.Strconv.{NumError, atoi, valid_utf8}
use jelly_torrent.Bencode.{
  Value, str, bytes, int, list, dict, Items, nil, cons, Fields, end, field, put,
}

abbrev pub max_decode_depth : ℕ
max_decode_depth = 512

mutual
  -- The position and the reason of a `DecodeError`; `inside` is the reason that holds the text of
  -- the error of an element.
  pub data DecodeError : Type 0 where
    decode_error : ℕ → Reason → DecodeError

  pub data Reason : Type 0 where
    too_deep end_of_data invalid_identifier missing_colon negative_length too_long : Reason
    unterminated_int empty_int leading_zero negative_zero : Reason
    unterminated_list unterminated_dict : Reason
    bad_number : NumError → Reason
    inside : DecodeError → Reason

-- A result of the decoder; `out_of_fuel` stands for a loop that has not ended.
pub data Outcome (A : Type 0) : Type 0 where
  done : A → Outcome A
  failed : DecodeError → Outcome A
  out_of_fuel : Outcome A

infixl 5 ◌>>=◌
abbrev pub ◌>>=◌ : {A B : Type 0} → Outcome A → (A → Outcome B) → Outcome B
done a >>= f = f a
failed e >>= f = failed e
out_of_fuel >>= f = out_of_fuel

-- `DecodeError{Position: p, Reason: err.Error()}` around an inner error, at the position that `p`
-- gives for it.
abbrev pub wrap : {A : Type 0} → (ℕ → ℕ) → Outcome A → Outcome A
wrap p (done a) = done a
wrap p (failed (decode_error i r)) = failed (decode_error (p i) (inside (decode_error i r)))
wrap p out_of_fuel = out_of_fuel

pub record Cursor : Type 0 where
  pub index : ℕ
  pub rest : Bytes

abbrev pub fail : {A : Type 0} → Cursor → Reason → Outcome A
fail c r = failed (decode_error c.index r)

-- The bytes before the first `sep`, and those behind it.
unfoldable pub split_at : ℕ → Bytes → Option (Bytes × Bytes)
split_at sep [] = none
split_at sep (c ∷ s) =
    if c == sep
    then some ([], s)
    else elim (split_at sep s) [ none ↦ none | some (before, after) ↦ some (c ∷ before, after) ]

abbrev pub skip : Cursor → Cursor
skip c = record { index = c.index + 1; rest = drop 1 c.rest }

-- The cases of `decodeAtDepth`.
pub data Kind : Type 0 where
  text number sequence mapping unknown : Kind

unfoldable pub identify : ℕ → Kind
identify b =
    if leb b'0' b && leb b b'9'
    then text
    else if b == b'i'
    then number
    else if b == b'l'
    then sequence
    else if b == b'd'
    then mapping
    else unknown

module _ (total : ℕ) where
  -- The range tests on the length of a string, and its contents.
  unfoldable pub read_content : Cursor → Bytes → Bytes → ℤ → Outcome (Bytes × Cursor)
  read_content c len_str after (negsuc n) = fail c negative_length
  read_content c len_str after (pos n) =
      let end_index = c.index + length len_str + 1 + n in
      if ltb total n
      then fail c too_long
      else if ltb total end_index
      then fail c too_long
      else done (take n after, record { index = end_index; rest = drop n after })

  unfoldable pub read_length : Cursor → Bytes → Bytes → Result NumError ℤ → Outcome (Bytes × Cursor)
  unfolding read_content
  read_length c len_str after (err e) = fail c (bad_number e)
  read_length c len_str after (ok n) = read_content c len_str after n

  unfoldable pub read_string : Cursor → Option (Bytes × Bytes) → Outcome (Bytes × Cursor)
  unfolding read_length
  read_string c none = fail c missing_colon
  read_string c (some (len_str, after)) = read_length c len_str after (atoi len_str)

  unfoldable pub decode_string : Cursor → Outcome (Bytes × Cursor)
  unfolding read_string split_at
  decode_string c = read_string c (split_at b':' c.rest)

  -- A string whose bytes are not UTF-8 stays a []byte.
  unfoldable pub as_text : Bytes → Value
  as_text s = if valid_utf8 s then str s else bytes s

  unfoldable pub read_number : Cursor → Cursor → Result NumError ℤ → Outcome (Value × Cursor)
  read_number c next (err e) = fail c (bad_number e)
  read_number c next (ok n) = done (int n, next)

  -- The tests on the text between `i` and `e`.
  unfoldable pub read_int : Cursor → Bytes → Cursor → Outcome (Value × Cursor)
  unfolding read_number
  read_int c num_str next =
      if length num_str == 0
      then fail c empty_int
      else if ltb 1 (length num_str) && bytes_eq (take 1 num_str) (b'0' ∷ [])
      then fail c leading_zero
      else if bytes_eq num_str (b'-' ∷ b'0' ∷ [])
      then fail c negative_zero
      else read_number c next (atoi num_str)

  unfoldable pub read_terminated : Cursor → Option (Bytes × Bytes) → Outcome (Value × Cursor)
  unfolding read_int
  read_terminated c none = fail c unterminated_int
  read_terminated c (some (before, after)) =
      read_int c (drop 1 before) (record { index = c.index + length before + 1; rest = after })

  unfoldable pub decode_int : Cursor → Outcome (Value × Cursor)
  unfolding read_terminated split_at
  decode_int c = read_terminated c (split_at b'e' c.rest)

  module _ (decode_value : Cursor → Outcome (Value × Cursor)) where
    -- The loop of `decodeList` that began at `start`.
    unfoldable pub decode_items : ℕ → Cursor → Cursor → Outcome (Items × Cursor)
    decode_items zero start c = out_of_fuel
    decode_items (suc fuel) start c = elim c.rest [
      | [] ↦ fail start unterminated_list
      | b ∷ after ↦ elim (b == b'e') [
        | true ↦ done (nil, record { index = c.index + 1; rest = after })
        | false ↦ do
          (v, c') ← wrap (λ _. start.index) (decode_value c)
          (vs, c'') ← decode_items fuel start c'
          done (cons v vs, c'')
      ]
    ]

    -- The loop of `decodeDict` that began at `start`; `fs` is the map so far.
    unfoldable pub decode_fields : ℕ → Cursor → Cursor → Fields → Outcome (Fields × Cursor)
    decode_fields zero start c fs = out_of_fuel
    decode_fields (suc fuel) start c fs = elim c.rest [
      | [] ↦ fail start unterminated_dict
      | b ∷ after ↦ elim (b == b'e') [
        | true ↦ done (fs, record { index = c.index + 1; rest = after })
        | false ↦ do
          (k, c') ← wrap (λ i. i) (decode_string c)
          (v, c'') ← wrap (λ i. i) (decode_value c')
          decode_fields fuel start c'' (put fs k v)
      ]
    ]

  -- What follows the test on the identifier; a loop makes at most one round for each byte.
  unfoldable pub dispatch :
      (Cursor → Outcome (Value × Cursor)) → Cursor → Kind → Outcome (Value × Cursor)
  unfolding decode_string decode_int as_text decode_items decode_fields
  dispatch decode_value c text = do (s, c') ← decode_string c; done (as_text s, c')
  dispatch decode_value c number = decode_int c
  dispatch decode_value c sequence = do
    (xs, c') ← decode_items decode_value (length c.rest) c (skip c)
    done (list xs, c')
  dispatch decode_value c mapping = do
    (fs, c') ← decode_fields decode_value (length c.rest) c (skip c) end
    done (dict fs, c')
  dispatch decode_value c unknown = fail c invalid_identifier

  -- `decodeAtDepth` at depth `max_decode_depth + 1 - levels`, so that no level is left exactly where
  -- the depth passes the maximum.
  unfoldable pub decode_at_depth : ℕ → Cursor → Outcome (Value × Cursor)
  unfolding dispatch identify
  decode_at_depth zero c = fail c too_deep
  decode_at_depth (suc levels) c = elim c.rest [
    | [] ↦ fail c end_of_data
    | b ∷ after ↦ dispatch (decode_at_depth levels) c (identify b)
  ]

-- `DecodeAt`: the value at `index`, and the index behind it.
unfoldable pub decode_at : Bytes → ℕ → Outcome (Value × Cursor)
unfolding decode_at_depth
decode_at bencoded i =
    decode_at_depth (length bencoded) (suc max_decode_depth)
      (record { index = i; rest = drop i bencoded })

unfoldable pub decode : Bytes → Outcome Value
unfolding decode_at
decode bencoded = do (v, c) ← decode_at bencoded 0; done v
