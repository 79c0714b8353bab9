-- ===== src/Base/Binary.antt =====
-- encoding/binary: numbers as bytes, the most significant first.
use Prim.Native.Nat.{ℕ, ◌+◌, ◌*◌, ◌/◌, ◌%◌, ◌^◌, ◌<◌}
use mathlib.Core.Path.{◌≡◌}
use mathlib.Core.List.{[], ◌∷◌, ◌++◌}
use native.Mathlib.Omega.{arith}
use jelly_torrent.Base.ByteString.{Bytes}
use jelly_torrent.Base.Lists.{get_or}

-- `PutUint16` and `PutUint32` of a number that is cut to its width.
unfoldable pub put_u16 : ℕ → Bytes
put_u16 n = n / 256 % 256 ∷ n % 256 ∷ []

unfoldable pub put_u32 : ℕ → Bytes
put_u32 n = n / 16777216 % 256 ∷ n / 65536 % 256 ∷ n / 256 % 256 ∷ n % 256 ∷ []

-- `Uint16` and `Uint32` of the bytes at the front; the code has tested that they are there.
unfoldable pub get_u16 : Bytes → ℕ
get_u16 bs = get_or bs 0 0 * 256 + get_or bs 1 0

unfoldable pub get_u32 : Bytes → ℕ
get_u32 bs = get_or bs 0 0 * 16777216 + get_or bs 1 0 * 65536 + get_or bs 2 0 * 256 + get_or bs 3 0

pub get_u16-put_u16 : (n : ℕ) (bs : Bytes) → n < 2 ^ 16 → get_u16 (put_u16 n ++ bs) ≡ n
unfolding get_u16 put_u16
get_u16-put_u16 n bs h = omega arith

pub get_u32-put_u32 : (n : ℕ) (bs : Bytes) → n < 2 ^ 32 → get_u32 (put_u32 n ++ bs) ≡ n
unfolding get_u32 put_u32
get_u32-put_u32 n bs h = omega arith
