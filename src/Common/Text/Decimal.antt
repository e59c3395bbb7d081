-- ===== src/Common/Text/Decimal.antt =====
-- Numbers as decimal text.
use Prim.Native.Nat.{ℕ, zero, suc, ◌+◌, ◌/◌, ◌%◌}
use mathlib.Core.List.{[], ◌∷◌}
use bx_ssh.Common.Tests.{ltb, if◌then◌else◌}
use bx_ssh.Common.Text.{Text}

-- A number in decimal, as `format!` and `to_string` print it; `suc n` steps print n.
unfoldable pub decimal_from : ℕ → ℕ → Text → Text
decimal_from zero n digits = digits
decimal_from (suc fuel) n digits =
    let digits' = (b'0' + n % 10) ∷ digits in
    let rest = decimal_from fuel (n / 10) digits' in if ltb n 10 then digits' else rest

unfoldable pub decimal : ℕ → Text
unfolding decimal_from
decimal n = decimal_from (suc n) n []
