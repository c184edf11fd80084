-- ===== src/Prelude/Decimal.antt =====
-- Decimal printing of a number, as `%d` does.
use Prim.Native.Nat.{ℕ, zero, suc, ◌+◌, ◌/◌, ◌%◌}
use mathlib.Core.List.{[], ◌∷◌, ◌++◌}
use tmux_pane_control.Prelude.Tests.{ltb, if◌then◌else◌}
use tmux_pane_control.Prelude.Text.{Bytes}

unfoldable pub digits_of : ℕ → ℕ → Bytes
digits_of zero n = []
digits_of (suc fuel) n =
    let front = digits_of fuel (n / 10) in
    if ltb n 10 then (b'0' + n) ∷ [] else front ++ ((b'0' + n % 10) ∷ [])

-- Twenty digits hold every number below 2^64.
unfoldable pub itoa : ℕ → Bytes
unfolding digits_of
itoa n = digits_of 20 n
