-- ===== src/Strconv/RoundTrip.antt =====
-- `Atoi` reads back what `Itoa` writes.
use jelly_torrent.Base.{
  ℕ, zero, suc, ◌+◌, ◌/◌, ◌%◌, ◌≤◌, ◌<◌, ◌≡◌, refl, ◌∙◌, Bool, true, false, [], ◌∷◌, ◌++◌,
  append_assoc, append-nil, arith, Bytes, ℤ, pos, negsuc, IsInt, max_int,
}
use jelly_torrent.Base.Result.{ok}
use jelly_torrent.Strconv.{
  digits, itoa_ℕ, itoa, max_u64, read_digits, in_range, atoi_unsigned, atoi,
}
use jelly_torrent.Strconv.Digits.{IsDigit, Head, Head-map, itoa_ℕ-zero, itoa_ℕ-pos}

read_last :
    (n : ℕ) (s : Bytes) → n ≤ max_u64 → read_digits ((b'0' + n % 10) ∷ s) (n / 10) ≡ read_digits s n
unfolding read_digits
read_last n s h = ground arith

read_digits-digits :
    (f n : ℕ) (s : Bytes) → n ≤ max_u64 → n < f → read_digits (digits f n ++ s) 0 ≡ read_digits s n
unfolding digits
read_digits-digits zero n s h lt = absurd (omega arith)
read_digits-digits (suc f) n s h lt = ground (
  arith,
  append_assoc (digits f (n / 10)) ((b'0' + n % 10) ∷ []) s,
  read_digits-digits f (n / 10) ((b'0' + n % 10) ∷ s),
  read_last n s,
)

read_digits-itoa_ℕ : (n : ℕ) → n ≤ max_u64 → read_digits (itoa_ℕ n) 0 ≡ ok n
unfolding itoa_ℕ
read_digits-itoa_ℕ n h =
    rw (← append-nil (digits (suc n) n))
      (read_digits-digits (suc n) n [] h (omega arith) ∙ unfold read_digits in refl)

-- A decimal print that begins with a digit is read with no sign.
atoi-digit :
    (c : ℕ) (s : Bytes) {n : ℕ}
    → IsDigit c
    → read_digits (c ∷ s) 0 ≡ ok n
    → atoi (c ∷ s) ≡ in_range false n
unfolding atoi
atoi-digit c s d h = ground arith

unsigned_print :
    (minus : Bool) (s : Bytes) {n : ℕ}
    → Head (λ c. Unit) s
    → read_digits s 0 ≡ ok n
    → atoi_unsigned minus s ≡ in_range minus n
unfolding atoi_unsigned
unsigned_print minus [] h e = absurd h
unsigned_print minus (c ∷ s) h e = rw e

pub itoa_ℕ-Head : (n : ℕ) → Head IsDigit (itoa_ℕ n)
itoa_ℕ-Head zero = rw itoa_ℕ-zero (omega arith)
itoa_ℕ-Head (suc n) =
    Head-map (itoa_ℕ (suc n)) (λ c h. omega arith) (itoa_ℕ-pos (suc n) (omega arith))

atoi_of_digits :
    (s : Bytes) {n : ℕ} → Head IsDigit s → read_digits s 0 ≡ ok n → atoi s ≡ in_range false n
atoi_of_digits [] h e = absurd h
atoi_of_digits (c ∷ s) h e = atoi-digit c s h e

-- Every int is read back from its decimal print.
pub atoi-itoa : (z : ℤ) → IsInt z → atoi (itoa z) ≡ ok z
unfolding itoa
atoi-itoa (pos n) h =
    atoi_of_digits (itoa_ℕ n) (itoa_ℕ-Head n) (read_digits-itoa_ℕ n (omega arith))
    ∙ unfold in_range in ground arith
atoi-itoa (negsuc n) h =
    unfold atoi in
    unsigned_print true (itoa_ℕ (suc n))
      (Head-map (itoa_ℕ (suc n)) (λ c h. tt) (itoa_ℕ-Head (suc n)))
      (read_digits-itoa_ℕ (suc n) (omega arith))
    ∙ unfold in_range in ground arith

pub atoi-itoa_ℕ : (n : ℕ) → n ≤ max_int → atoi (itoa_ℕ n) ≡ ok (pos n)
unfolding itoa
atoi-itoa_ℕ n h = atoi-itoa (pos n) h
