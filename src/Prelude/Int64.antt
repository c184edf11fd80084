-- ===== src/Prelude/Int64.antt =====
-- Go's `int64` (and `int` on 64-bit platforms) as its bit pattern, a number below 2^64.
use Prim.Native.Nat.{ℕ, ◌+◌, ◌-◌, ◌%◌, ◌^◌, ◌≤◌, ◌<◌}
use mathlib.Core.Path.{◌≡◌}
use mathlib.Core.Bool.{Bool, not}
use native.Mathlib.Omega.{arith}
use tmux_pane_control.Prelude.Tests.{ltb, leb, if◌then◌else◌}

abbrev pub two63 : ℕ
two63 = 2 ^ 63

abbrev pub two64 : ℕ
two64 = 2 ^ 64

-- Sum and difference wrap round.
unfoldable pub add64 : ℕ → ℕ → ℕ
add64 a b = (a + b) % two64

unfoldable pub sub64 : ℕ → ℕ → ℕ
sub64 a b = (a + two64 - b) % two64

-- The signed order: patterns from 2^63 on stand for the negative numbers.
unfoldable pub ltb64 : ℕ → ℕ → Bool
ltb64 a b = ltb ((a + two63) % two64) ((b + two63) % two64)

unfoldable pub leb64 : ℕ → ℕ → Bool
leb64 a b = not (ltb64 b a)

-- `a % c` for a positive `c`: the sign of the result is that of `a`.
unfoldable pub rem64 : ℕ → ℕ → ℕ
rem64 a c = if ltb a two63 then a % c else sub64 0 (sub64 0 a % c)

pub add64-small : (a b : ℕ) → a + b < two64 → add64 a b ≡ a + b
unfolding add64
add64-small a b h = omega arith

pub sub64-small : (a b : ℕ) → b ≤ a → a < two64 → sub64 a b ≡ a - b
unfolding sub64
sub64-small a b h k = omega arith

pub ltb64-small : (a b : ℕ) → a < two63 → b < two63 → ltb64 a b ≡ ltb a b
unfolding ltb64
ltb64-small a b h k = ground arith

pub ltb64-negative : (a b : ℕ) → two63 ≤ a → a < two64 → b < two63 → ltb64 a b ≡ ltb b a
unfolding ltb64
ltb64-negative a b h k l = ground arith

pub leb64-small : (a b : ℕ) → a < two63 → b < two63 → leb64 a b ≡ leb a b
unfolding leb64 ltb64
leb64-small a b h k = ground arith

pub rem64-small : (a c : ℕ) → a < two63 → rem64 a c ≡ a % c
unfolding rem64
rem64-small a c h = ground arith
