-- ===== src/Peer/BitField.antt =====
-- internal/peer/bitfield.go. Piece indices are natural numbers here.
pub mod Laws
use Prim.Native.Nat.{bit_or}
use jelly_torrent.Base.{
  ℕ, zero, suc, ◌+◌, ◌-◌, ◌*◌, ◌/◌, ◌%◌, ◌^◌, ◌≤◌, ◌<◌, ◌≡◌, refl, ap, ◌∙◌, ◌≢◌, inl, inr, Bool,
  true, false, not, ◌&&◌, ◌||◌, Bytes, All, [], ◌∷◌, arith, length, length-set, get_or, set,
  replicate, ltb, ◌==◌, ==_iff, if◌then◌else◌, Bool-cases,
}

abbrev pub BitField : Type 0
BitField = Bytes

unfoldable pub new_bit_field : ℕ → BitField
new_bit_field n = replicate ((n + 7) / 8) 0

-- `b >> (7 - offset) & 1 != 0`
unfoldable pub test_bit : ℕ → ℕ → Bool
test_bit b offset = not ((b / 2 ^ (7 - offset)) % 2 == 0)

unfoldable pub has_piece : BitField → ℕ → Bool
unfolding test_bit
has_piece bf i = if ltb (i / 8) (length bf) then test_bit (get_or bf (i / 8) 0) (i % 8) else false

unfoldable pub set_bit : ℕ → ℕ → ℕ
set_bit b offset = bit_or b (2 ^ (7 - offset))

unfoldable pub set_piece : BitField → ℕ → BitField
unfolding set_bit
set_piece bf i =
    if ltb (i / 8) (length bf) then set bf (i / 8) (set_bit (get_or bf (i / 8) 0) (i % 8)) else bf

abbrev pub AreBytes : BitField → Type 0
AreBytes = All (λ b. b < 256)
