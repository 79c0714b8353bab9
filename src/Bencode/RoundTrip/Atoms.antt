-- ===== src/Bencode/RoundTrip/Atoms.antt =====
-- internal/bencode: the decoder reads back the strings and the integers that the encoder writes.
use jelly_torrent.Base.{
  ℕ, zero, suc, ◌+◌, ◌≤◌, ◌≡◌, refl, ◌∙◌, ◌≢◌, false, some, [], ◌∷◌, ◌++◌, append_assoc, arith,
  Bytes, All, bytes_eq, ℤ, pos, negsuc, IsInt, max_int, length, take, length-append, take-append,
  drop-append, ltb, ◌==◌, ◌&&◌,
}
use jelly_torrent.Strconv.{itoa, itoa_ℕ}
use jelly_torrent.Strconv.Digits.{Head, IsDigit, itoa_ℕ-IsDigit, itoa_ℕ-pos}
use jelly_torrent.Strconv.RoundTrip.{atoi-itoa, atoi-itoa_ℕ, itoa_ℕ-Head}
use jelly_torrent.Bencode.{int}
use jelly_torrent.Bencode.Encode.{encode_string, encode_int}
use jelly_torrent.Bencode.Decode.{
  done, Cursor, split_at, read_content, decode_string, read_int, decode_int, identify, text,
}
use jelly_torrent.Bencode.Decode.Cursors.{cursor}

split_at-found :
    (sep : ℕ) (before after : Bytes)
    → All (λ c. c ≢ sep) before
    → split_at sep (before ++ sep ∷ after) ≡ some (before, after)
unfolding split_at
split_at-found sep [] after h = ground arith
split_at-found sep (c ∷ s) after (hc, h) = ground (arith, split_at-found sep s after h)

All-map : {P Q : ℕ → Type 0} (s : Bytes) → ((c : ℕ) → P c → Q c) → All P s → All Q s
All-map [] f h = tt
All-map (c ∷ s) f (hc, h) = (f c hc, All-map s f h)

read_content-fits :
    (total i : ℕ) (w : Bytes) (len_str s r : Bytes)
    → i + length len_str + 1 + length s + length r ≡ total
    → read_content total (cursor i w) len_str (s ++ r) (pos (length s))
      ≡ done (s, cursor (i + length len_str + 1 + length s) r)
unfolding read_content
read_content-fits total i w len_str s r h = ground (arith, take-append s r, drop-append s r)

length-encode_string :
    (s : Bytes) → length (encode_string s) ≡ length (itoa_ℕ (length s)) + suc (length s)
unfolding encode_string
length-encode_string s = length-append (itoa_ℕ (length s)) (b':' ∷ s)

split_at-encode_string :
    (s r : Bytes) → split_at b':' (encode_string s ++ r) ≡ some (itoa_ℕ (length s), s ++ r)
unfolding encode_string
split_at-encode_string s r = rw (append_assoc (itoa_ℕ (length s)) (b':' ∷ s) r) (
    split_at-found b':' (itoa_ℕ (length s)) (s ++ r)
      (All-map (itoa_ℕ (length s)) (λ c d. omega arith) (itoa_ℕ-IsDigit (length s))))

pub decode_string-encode_string :
    (total i : ℕ) (s r : Bytes)
    → total ≤ max_int
    → i + length (encode_string s ++ r) ≡ total
    → decode_string total (cursor i (encode_string s ++ r))
      ≡ done (s, cursor (i + length (encode_string s)) r)
unfolding decode_string
decode_string-encode_string total i s r le h =
    let size = length-encode_string s in
    let whole = length-append (encode_string s) r in
    let end_eq : i + length (itoa_ℕ (length s)) + 1 + length s ≡ i + length (encode_string s) =
      omega (arith, size) in
    rw (split_at-encode_string s r, atoi-itoa_ℕ (length s) (omega (arith, size, whole)))
      (read_content-fits total i (encode_string s ++ r) (itoa_ℕ (length s)) s r
          (omega (arith, size, whole))
        ∙ rw end_eq)

-- What the tests of `decodeInt` see in a decimal print.
itoa-cases :
    (z : ℤ)
    → (length (itoa z) == 0 ≡ false)
      × ((ltb 1 (length (itoa z)) && bytes_eq (take 1 (itoa z)) (b'0' ∷ [])) ≡ false)
      × (bytes_eq (itoa z) (b'-' ∷ b'0' ∷ []) ≡ false)
unfolding itoa bytes_eq
itoa-cases (pos zero) = (refl, refl, refl)
itoa-cases (pos (suc n)) = first_digit (itoa_ℕ (suc n)) (itoa_ℕ-pos (suc n) (omega arith))
  where
    first_digit :
        (s : Bytes)
        → Head (λ c. (b'1' ≤ c) × (c ≤ b'9')) s
        → (length s == 0 ≡ false)
          × ((ltb 1 (length s) && bytes_eq (take 1 s) (b'0' ∷ [])) ≡ false)
          × (bytes_eq s (b'-' ∷ b'0' ∷ []) ≡ false)
    first_digit [] h = absurd h
    first_digit (c ∷ s) h = (ground arith, ground arith, ground arith)
itoa-cases (negsuc n) = signed (itoa_ℕ (suc n)) (itoa_ℕ-pos (suc n) (omega arith))
  where
    signed :
        (s : Bytes)
        → Head (λ c. (b'1' ≤ c) × (c ≤ b'9')) s
        → (length (b'-' ∷ s) == 0 ≡ false)
          × ((ltb 1 (length (b'-' ∷ s)) && bytes_eq (take 1 (b'-' ∷ s)) (b'0' ∷ [])) ≡ false)
          × (bytes_eq (b'-' ∷ s) (b'-' ∷ b'0' ∷ []) ≡ false)
    signed [] h = absurd h
    signed (c ∷ s) h = (ground arith, ground arith, ground arith)

itoa-Lacks_e : (z : ℤ) → All (λ c. c ≢ b'e') (itoa z)
unfolding itoa
itoa-Lacks_e (pos n) = All-map (itoa_ℕ n) (λ c d. omega arith) (itoa_ℕ-IsDigit n)
itoa-Lacks_e (negsuc n) =
    (omega arith, All-map (itoa_ℕ (suc n)) (λ c d. omega arith) (itoa_ℕ-IsDigit (suc n)))

split_at-encode_int :
    (z : ℤ) (r : Bytes) → split_at b'e' (encode_int z ++ r) ≡ some (b'i' ∷ itoa z, r)
unfolding encode_int
split_at-encode_int z r =
    rw (append_assoc (itoa z) (b'e' ∷ []) r)
      (split_at-found b'e' (b'i' ∷ itoa z) r (omega arith, itoa-Lacks_e z))

length-encode_int : (z : ℤ) → length (encode_int z) ≡ length (itoa z) + 2
unfolding encode_int
length-encode_int z = omega (arith, length-append (itoa z) (b'e' ∷ []))

read_int-itoa :
    (total : ℕ) (c next : Cursor) (z : ℤ)
    → IsInt z
    → read_int total c (itoa z) next ≡ done (int z, next)
unfolding read_int
read_int-itoa total c next z h =
    let (some_digit, no_zero, no_minus_zero) = itoa-cases z in
    rw (some_digit, no_zero, no_minus_zero, atoi-itoa z h)

pub decode_int-encode_int :
    (total i : ℕ) (z : ℤ) (r : Bytes)
    → IsInt z
    → decode_int total (cursor i (encode_int z ++ r))
      ≡ done (int z, cursor (i + length (encode_int z)) r)
unfolding decode_int
decode_int-encode_int total i z r h =
    let end_eq : i + suc (length (itoa z)) + 1 ≡ i + length (encode_int z) =
      omega (arith, length-encode_int z) in
    rw (split_at-encode_int z r)
      (read_int-itoa total (cursor i (encode_int z ++ r)) _ z h ∙ rw end_eq)

-- The first byte of an encoding names its kind.
pub encode_string-Head : (s : Bytes) → Head (λ c. identify c ≡ text) (encode_string s)
unfolding encode_string identify
encode_string-Head s = first (itoa_ℕ (length s)) (itoa_ℕ-Head (length s))
  where
    first : (t : Bytes) → Head IsDigit t → Head (λ c. identify c ≡ text) (t ++ b':' ∷ s)
    first [] h = absurd h
    first (c ∷ t) h = ground arith
