-- ===== src/Common/Words.antt =====
-- Go's int64 as its two's complement pattern, a number below 2 ^ 64; its operators wrap.
use Prim.Native.Nat.{ℕ, ◌+◌, ◌-◌, ◌*◌, ◌%◌, ◌<◌}
use mathlib.Core.Path.{◌≡◌}
use mathlib.Core.Bool.{Bool, ◌&&◌}
use native.Mathlib.Omega.{arith}
use game_production.Common.Tests.{ltb, leb}

abbrev pub two64 : ℕ
two64 = 18446744073709551616

abbrev pub two63 : ℕ
two63 = 9223372036854775808

abbrev pub add64 : ℕ → ℕ → ℕ
add64 a b = (a + b) % two64

abbrev pub sub64 : ℕ → ℕ → ℕ
sub64 a b = (a + two64 - b) % two64

abbrev pub mul64 : ℕ → ℕ → ℕ
mul64 a b = a * b % two64

-- The pattern of -a.
abbrev pub neg64 : ℕ → ℕ
neg64 a = sub64 0 a

abbrev pub is_negative : ℕ → Bool
is_negative a = leb two63 a

-- a > 0
abbrev pub is_positive : ℕ → Bool
is_positive a = ltb 0 a && ltb a two63

pub add64_comm : (a b : ℕ) → add64 a b ≡ add64 b a
add64_comm a b = omega arith

pub add64_assoc : (a b c : ℕ) → add64 (add64 a b) c ≡ add64 a (add64 b c)
add64_assoc a b c = omega arith

pub add64-sub64 : (a b : ℕ) → a < two64 → b < two64 → add64 (sub64 a b) b ≡ a
add64-sub64 a b h k = omega arith
