-- ===== src/Peer/BitField/Laws.antt =====
-- internal/peer/bitfield.go: the bits of a bitfield are independent.
use jelly_torrent.Base.{
  ℕ, zero, suc, ◌*◌, ◌/◌, ◌%◌, ◌<◌, ◌≡◌, refl, inl, inr, Bool, true, false, not, ◌&&◌, [], ◌∷◌,
  arith, List, length, length-set, get_or, set, ltb, ◌==◌, if◌then◌else◌, Bool-cases, ltb→lt,
}
use jelly_torrent.Base.Sweep.{passes, passes_from, passes_at, passes_lem}
use jelly_torrent.Peer.BitField.{BitField, AreBytes, test_bit, has_piece, set_bit, set_piece}

same : Bool → Bool → Bool
same true b = b
same false b = not b

same_sound : (a b : Bool) → same a b ≡ true → a ≡ b
unfolding same
same_sound a b h = ground arith

-- Setting a bit of a byte sets that bit and no other, and the result is a byte.
bits_of : ℕ → ℕ → ℕ → Bool
unfolding set_bit test_bit same
bits_of b j k =
    same (test_bit (set_bit b k) j) (if j == k then true else test_bit b j) && ltb (set_bit b k) 256

bits_row : ℕ → Bool
bits_row b = passes_from (λ j. passes_from (bits_of b j) 8) 8

bit_table : passes bits_row ≡ true
unfolding passes_from bits_of bits_row
bit_table = refl

and-left : (a b : Bool) → (a && b) ≡ true → a ≡ true
and-left a b h = ground arith

and-right : (a b : Bool) → (a && b) ≡ true → b ≡ true
and-right a b h = ground arith

bits_sound : (b j k : ℕ) → b < 256 → j < 8 → k < 8 → bits_of b j k ≡ true
unfolding bits_row
bits_sound b j k hb hj hk =
    let row = passes_lem bits_row b bit_table hb in
    let cell = passes_at (λ i. passes_from (bits_of b i) 8) 8 j hj row in
    passes_at (bits_of b j) 8 k hk cell

test_bit-set_bit :
    (b j k : ℕ)
    → b < 256
    → j < 8
    → k < 8
    → test_bit (set_bit b k) j ≡ (if j == k then true else test_bit b j)
test_bit-set_bit b j k hb hj hk =
    same_sound _ _ (unfold bits_of in (and-left _ _ (bits_sound b j k hb hj hk)))

bits_small : (b k : ℕ) → bits_of b 0 k ≡ true → ltb (set_bit b k) 256 ≡ true
unfolding bits_of
bits_small b k h = and-right _ _ h

set_bit-lt : (b k : ℕ) → b < 256 → k < 8 → set_bit b k < 256
set_bit-lt b k hb hk =
    ltb→lt (set_bit b k) 256 (bits_small b k (bits_sound b 0 k hb (omega arith) hk))

get_or-set :
    (xs : List ℕ) (i j v : ℕ)
    → i < length xs
    → get_or (set xs i v) j 0 ≡ (if j == i then v else get_or xs j 0)
get_or-set [] i j v h = elim h [ ]
get_or-set (x ∷ xs) zero zero v h = refl
get_or-set (x ∷ xs) zero (suc j) v h = ground arith
get_or-set (x ∷ xs) (suc i) zero v h = ground arith
get_or-set (x ∷ xs) (suc i) (suc j) v h = ground (arith, get_or-set xs i j v)

AreBytes-get_or : (bf : BitField) (i : ℕ) → AreBytes bf → get_or bf i 0 < 256
AreBytes-get_or [] i h = omega arith
AreBytes-get_or (b ∷ bf) zero h = h.0
AreBytes-get_or (b ∷ bf) (suc i) h = AreBytes-get_or bf i h.1

AreBytes-set : (bf : BitField) (i b : ℕ) → AreBytes bf → b < 256 → AreBytes (set bf i b)
AreBytes-set [] i b h lt = tt
AreBytes-set (x ∷ bf) zero b h lt = (lt, h.1)
AreBytes-set (x ∷ bf) (suc i) b h lt = (h.0, AreBytes-set bf i b h.1 lt)

-- `SetPiece` keeps a bitfield of bytes one.
pub set_piece-AreBytes : (bf : BitField) (i : ℕ) → AreBytes bf → AreBytes (set_piece bf i)
unfolding set_piece
set_piece-AreBytes bf i h = elim (Bool-cases (ltb (i / 8) (length bf))) [
  | inl e ↦ rw e (
      AreBytes-set bf (i / 8) _ h
        (set_bit-lt _ (i % 8) (AreBytes-get_or bf (i / 8) h) (omega arith)))
  | inr e ↦ rw e h
]

-- After `SetPiece(i)`, `HasPiece(j)` is true for `j = i`, where the bitfield has room for it, and what
-- it was for every other index.
pub has_piece-set_piece :
    (bf : BitField) (i j : ℕ)
    → AreBytes bf
    → i < length bf * 8
    → has_piece (set_piece bf i) j ≡ (if j == i then true else has_piece bf j)
unfolding set_piece has_piece
has_piece-set_piece bf i j h room = ground (
  arith,
  length-set bf (i / 8) (set_bit (get_or bf (i / 8) 0) (i % 8)),
  get_or-set bf (i / 8) (j / 8) (set_bit (get_or bf (i / 8) 0) (i % 8)),
  test_bit-set_bit (get_or bf (i / 8) 0) (j % 8) (i % 8),
  AreBytes-get_or bf (i / 8) h,
)
