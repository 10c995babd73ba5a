-- ===== src/Base/Decimal.antt =====
-- Integers as Rust's `{}` prints them.
use Prim.Native.Nat.{ℕ, zero, suc, ◌+◌, ◌/◌, ◌%◌}
use mathlib.Core.List.{[], ◌∷◌}
use omarchy_premonition.Base.Str.{Text}
use omarchy_premonition.Base.Tests.{ltb, if◌then◌else◌}

-- The decimal digits of an integer of at most twenty digits, before `acc`.
unfoldable pub decimal_digits : ℕ → ℕ → Text → Text
decimal_digits zero n acc = acc
decimal_digits (suc fuel) n acc =
    let rest = decimal_digits fuel (n / 10) ((b'0' + n % 10) ∷ acc) in
    if ltb n 10 then (b'0' + n) ∷ acc else rest

-- `u64` as `{}` prints it.
unfoldable pub decimal : ℕ → Text
unfolding decimal_digits
decimal n = decimal_digits 20 n []
