-- ===== src/Base/Sweep.antt =====
-- Facts about bytes that are checked by evaluation at every one of them.
use Prim.Native.Nat.{ℕ, zero, suc, ◌<◌}
use mathlib.Core.Path.{◌≡◌}
use mathlib.Core.Bool.{Bool, true, false}
use native.Mathlib.Omega.{arith}
use jelly_torrent.Base.Tests.{if◌then◌else◌}

-- A test of every byte by evaluation.
unfoldable pub passes_from : (ℕ → Bool) → ℕ → Bool
passes_from test zero = true
passes_from test (suc n) = let rest = passes_from test n in if test n then rest else false

abbrev pub passes : (ℕ → Bool) → Bool
passes test = passes_from test 256

pub passes_at :
    (test : ℕ → Bool) (bound b : ℕ) → b < bound → passes_from test bound ≡ true → test b ≡ true
unfolding passes_from
passes_at test zero b lt h = absurd (omega arith)
passes_at test (suc bound) b lt h = ground (arith, passes_at test bound b)

pub passes_lem : (test : ℕ → Bool) (b : ℕ) → passes test ≡ true → b < 256 → test b ≡ true
passes_lem test b h lt = passes_at test 256 b lt h
