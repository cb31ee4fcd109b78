-- ===== src/Prelude/Decimal.antt =====
-- Numbers as Rust prints them with `{}`, and u64 arithmetic as a release build does it.
use Prim.Native.Nat.{ℕ, zero, suc, ◌+◌, ◌/◌, ◌%◌, ◌^◌}
use mathlib.Core.List.{◌∷◌, []}
use a2ltool.Prelude.Tests.{ltb, if◌then◌else◌}
use a2ltool.Prelude.Int.{ℤ, pos, negsuc}
use a2ltool.Prelude.Texts.{Text}

-- u64 and usize arithmetic wraps.
abbrev pub wrap64 : ℕ → ℕ
wrap64 n = n % 2 ^ 64

-- The decimal digits of `n` in front of `acc`; one more round than `n` is enough.
unfoldable pub decimal_loop : ℕ → ℕ → Text → Text
decimal_loop zero n acc = acc
decimal_loop (suc f) n acc =
    let now = (48 + n % 10) ∷ acc in
    let rest = decimal_loop f (n / 10) now in if ltb n 10 then now else rest

unfoldable pub to_decimal : ℕ → Text
unfolding decimal_loop
to_decimal n = decimal_loop (suc n) n []

unfoldable pub int_to_decimal : ℤ → Text
int_to_decimal (pos n) = to_decimal n
int_to_decimal (negsuc n) = b'-' ∷ to_decimal (suc n)
