-- ===== src/Strconv/Digits.antt =====
-- What `Itoa` writes: decimal digits, and no leading zero.
use jelly_torrent.Base.{
  ℕ, zero, suc, ◌+◌, ◌/◌, ◌%◌, ◌≤◌, ◌<◌, ◌≡◌, refl, [], ◌∷◌, ◌++◌, arith, Bytes, All, All-append,
  length, length-append, lt→ltb, ◌*◌,
}
use jelly_torrent.Strconv.{digits, itoa_ℕ}

abbrev pub IsDigit : ℕ → Type 0
IsDigit c = (b'0' ≤ c) × (c ≤ b'9')

-- The first byte, if there is one, satisfies `P`.
abbrev pub Head : (ℕ → Type 0) → Bytes → Type 0
Head P [] = ⊥
Head P (c ∷ s) = P c

Head-append : (P : ℕ → Type 0) (s t : Bytes) → Head P s → Head P (s ++ t)
Head-append P [] t h = absurd h
Head-append P (c ∷ s) t h = h

pub Head-map : {P Q : ℕ → Type 0} (s : Bytes) → ((c : ℕ) → P c → Q c) → Head P s → Head Q s
Head-map [] f h = h
Head-map (c ∷ s) f h = f c h

pub Head-length : (P : ℕ → Type 0) (s : Bytes) → Head P s → 1 ≤ length s
Head-length P [] h = absurd h
Head-length P (c ∷ s) h = omega arith

digits-IsDigit : (f n : ℕ) → All IsDigit (digits f n)
unfolding digits
digits-IsDigit zero n = tt
digits-IsDigit (suc f) n = ground (
  arith,
  digits-IsDigit f (n / 10),
  All-append IsDigit (digits f (n / 10)) ((b'0' + n % 10) ∷ []) (digits-IsDigit f (n / 10)),
)

digits-pos : (f n : ℕ) → 0 < n → n < f → Head (λ c. (b'1' ≤ c) × (c ≤ b'9')) (digits f n)
unfolding digits
digits-pos zero n p h = absurd (omega arith)
digits-pos (suc f) n p h = ground (
  arith,
  Head-append (λ c. (b'1' ≤ c) × (c ≤ b'9')) (digits f (n / 10)) ((b'0' + n % 10) ∷ []),
  digits-pos f (n / 10),
)

digits-zero : (f : ℕ) → digits (suc f) 0 ≡ b'0' ∷ []
unfolding digits
digits-zero f = refl

pub itoa_ℕ-IsDigit : (n : ℕ) → All IsDigit (itoa_ℕ n)
unfolding itoa_ℕ
itoa_ℕ-IsDigit n = digits-IsDigit (suc n) n

pub itoa_ℕ-pos : (n : ℕ) → 0 < n → Head (λ c. (b'1' ≤ c) × (c ≤ b'9')) (itoa_ℕ n)
unfolding itoa_ℕ
itoa_ℕ-pos n p = digits-pos (suc n) n p (omega arith)

pub itoa_ℕ-zero : itoa_ℕ 0 ≡ b'0' ∷ []
unfolding itoa_ℕ
itoa_ℕ-zero = digits-zero 0

abbrev pub power_of_ten : ℕ → ℕ
power_of_ten zero = 1
power_of_ten (suc k) = 10 * power_of_ten k

-- A number below a power of ten has no more digits than its exponent, or one.
digits-length : (f n k : ℕ) → n < power_of_ten (suc k) → length (digits f n) ≤ suc k
unfolding digits
digits-length zero n k h = omega arith
digits-length (suc f) n zero h = rw (lt→ltb n 10 (omega arith)) (omega arith)
digits-length (suc f) n (suc k) h =
    let shorter = digits-length f (n / 10) k (omega arith) in
    ground (arith, shorter, length-append (digits f (n / 10)) ((b'0' + n % 10) ∷ []))

pub itoa_ℕ-length : (n k : ℕ) → n < power_of_ten (suc k) → length (itoa_ℕ n) ≤ suc k
unfolding itoa_ℕ
itoa_ℕ-length n k h = digits-length (suc n) n k h
