-- ===== src/Base/Word.antt =====
-- Go's int64 as its bit pattern, a number below 2 ^ 64. Equality is that of the patterns, and the
-- signed order is that of `rank64`, which adds 2 ^ 63 modulo 2 ^ 64.
use Prim.Native.Nat.{ℕ, ◌+◌, ◌%◌, ◌<◌}
use mathlib.Core.Path.{◌≡◌}
use mathlib.Core.Bool.{Bool}
use native.Mathlib.Omega.{arith}
use live_collab.Base.Tests.{ltb, leb}

abbrev pub Int64 : Type 0
Int64 = ℕ

-- 2 ^ 63: the patterns below are the numbers that are not negative.
abbrev pub int64_limit : ℕ
int64_limit = 0x8000000000000000

unfoldable pub rank64 : Int64 → ℕ
rank64 x = (x + 0x8000000000000000) % 0x10000000000000000

-- a <= b and a < b on int64.
abbrev pub le64 : Int64 → Int64 → Bool
le64 a b = leb (rank64 a) (rank64 b)

abbrev pub lt64 : Int64 → Int64 → Bool
lt64 a b = ltb (rank64 a) (rank64 b)

-- x + 1 with Go's wrap-around, from 2 ^ 63 - 1 to -2 ^ 63.
unfoldable pub inc64 : Int64 → Int64
inc64 x = (x + 1) % 0x10000000000000000

pub rank64_nonneg : (x : ℕ) → x < int64_limit → rank64 x ≡ x + int64_limit
unfolding rank64
rank64_nonneg x h = omega arith

pub inc64_lem : (x : ℕ) → x < int64_limit → inc64 x ≡ x + 1
unfolding inc64
inc64_lem x h = omega arith

pub rank64-inc64 : (x : ℕ) → x + 1 < int64_limit → rank64 (inc64 x) ≡ rank64 x + 1
unfolding inc64 rank64
rank64-inc64 x h = omega arith
