-- ===== src/Strconv.antt =====
-- Go's `strconv.Itoa` and `strconv.Atoi` and `utf8.Valid`, as far as the program calls them.
pub mod Digits
pub mod RoundTrip
use jelly_torrent.Base.{
  ℕ, zero, suc, ◌+◌, ◌-◌, ◌*◌, ◌/◌, ◌%◌, ◌^◌, ◌≡◌, refl, Bool, true, false, ◌||◌, ◌&&◌, [], ◌∷◌,
  ◌++◌, Option, none, some, Bytes, codes, ℤ, pos, negsuc, max_int, ltb, leb, ◌==◌, if◌then◌else◌,
}
use jelly_torrent.Base.Result.{Result, ok, err, ◌>>=◌}

-- The decimal digits of a number, most significant first. The fuel bounds the number of digits.
unfoldable pub digits : ℕ → ℕ → Bytes
digits zero n = []
digits (suc f) n =
    let more = digits f (n / 10) ++ (b'0' + n % 10) ∷ [] in
    if ltb n 10 then (b'0' + n) ∷ [] else more

-- `n + 1` rounds are enough for `n`, since each round divides by ten.
unfoldable pub itoa_ℕ : ℕ → Bytes
unfolding digits
itoa_ℕ n = digits (suc n) n

unfoldable pub itoa : ℤ → Bytes
unfolding itoa_ℕ
itoa (pos n) = itoa_ℕ n
itoa (negsuc n) = b'-' ∷ itoa_ℕ (suc n)

pub data NumError : Type 0 where
  invalid_syntax out_of_range : NumError

abbrev pub max_u64 : ℕ
max_u64 = 2 ^ 64 - 1

-- The loop of `ParseUint` in base ten: a byte that is no digit, or a value past uint64, ends it.
unfoldable pub read_digits : Bytes → ℕ → Result NumError ℕ
read_digits [] n = ok n
read_digits (c ∷ s) n =
    if ltb c b'0' || ltb b'9' c
    then err invalid_syntax
    else if ltb max_u64 (n * 10 + (c - b'0'))
    then err out_of_range
    else read_digits s (n * 10 + (c - b'0'))

-- The range tests of `ParseInt`, for a value read behind no minus sign and behind one.
unfoldable pub in_range : Bool → ℕ → Result NumError ℤ
in_range false n = if ltb max_int n then err out_of_range else ok (pos n)
in_range true n =
    if ltb (2 ^ 63) n then err out_of_range else ok (if n == 0 then pos 0 else negsuc (n - 1))

unfoldable pub atoi_unsigned : Bool → Bytes → Result NumError ℤ
unfolding read_digits in_range
atoi_unsigned minus [] = err invalid_syntax
atoi_unsigned minus (c ∷ s) = do n ← read_digits (c ∷ s) 0; in_range minus n

unfoldable pub atoi : Bytes → Result NumError ℤ
unfolding atoi_unsigned
atoi [] = err invalid_syntax
atoi (c ∷ s) =
    if c == b'-'
    then atoi_unsigned true s
    else if c == b'+'
    then atoi_unsigned false s
    else atoi_unsigned false (c ∷ s)

-- How many continuation bytes follow a lead byte, and the range of the first of them.
lead : ℕ → Option (ℕ × ℕ × ℕ)
lead c =
    if ltb c 0x80
    then some (0, 0, 0)
    else if ltb c 0xc2
    then none
    else if ltb c 0xe0
    then some (1, 0x80, 0xbf)
    else if c == 0xe0
    then some (2, 0xa0, 0xbf)
    else if c == 0xed
    then some (2, 0x80, 0x9f)
    else if ltb c 0xf0
    then some (2, 0x80, 0xbf)
    else if c == 0xf0
    then some (3, 0x90, 0xbf)
    else if ltb c 0xf4
    then some (3, 0x80, 0xbf)
    else if c == 0xf4
    then some (3, 0x80, 0x8f)
    else none

-- The state is how many continuation bytes are due, and the range of the next one.
utf8_from : Bytes → Option (ℕ × ℕ × ℕ) → Bool
unfolding lead
utf8_from s none = false
utf8_from [] (some (due, lo, hi)) = due == 0
utf8_from (c ∷ s) (some (zero, lo, hi)) = utf8_from s (lead c)
utf8_from (c ∷ s) (some (suc due, lo, hi)) =
    leb lo c && leb c hi && utf8_from s (some (due, 0x80, 0xbf))

unfoldable pub valid_utf8 : Bytes → Bool
unfolding utf8_from
valid_utf8 s = utf8_from s (some (0, 0, 0))

itoa_negative : itoa (negsuc 41) ≡ codes "-42"
unfolding itoa
itoa_negative = refl

atoi_signs : (atoi (codes "+7") ≡ ok (pos 7)) × (atoi (codes "-05") ≡ ok (negsuc 4))
unfolding atoi
atoi_signs = (refl, refl)

atoi_overflow : atoi (codes "9223372036854775808") ≡ err out_of_range
unfolding atoi
atoi_overflow = refl

utf8_samples :
    (valid_utf8 (0x68 ∷ 0xc3 ∷ 0xa9 ∷ []) ≡ true) × (valid_utf8 (0xed ∷ 0xa0 ∷ 0x80 ∷ []) ≡ false)
unfolding valid_utf8
utf8_samples = (refl, refl)
