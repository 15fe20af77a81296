-- ===== src/Base/Ints.antt =====
-- Signed integers, as far as message sequence numbers need them.
use Prim.Native.Nat.{ℕ, suc, ◌+◌, ◌-◌, ◌≤◌}
use native.Mathlib.Omega.{arith}
use mathlib.Core.Bool.{Bool, true, false, not}
use mess.Base.Tests.{ltb}

-- `negsuc n` is -(n + 1).
pub data ℤ : Type 0 where
  pos : ℕ → ℤ
  negsuc : ℕ → ℤ

abbrev pub lt_int : ℤ → ℤ → Bool
lt_int (pos m) (pos n) = ltb m n
lt_int (pos m) (negsuc n) = false
lt_int (negsuc m) (pos n) = true
lt_int (negsuc m) (negsuc n) = ltb n m

abbrev pub le_int : ℤ → ℤ → Bool
le_int a b = not (lt_int b a)

-- -n
abbrev pub negate : ℕ → ℤ
negate ℕ.zero = pos 0
negate (suc n) = negsuc n

-- A time and a duration. Every time is later than any duration is long, so the cut at 0 is not met.
unfoldable pub add_int : ℕ → ℤ → ℕ
add_int t (pos n) = t + n
add_int t (negsuc n) = t - suc n

abbrev pub is_positive : ℤ → Bool
is_positive d = lt_int (pos 0) d

pub add_int-le : (d : ℤ) (s t : ℕ) → s ≤ t → add_int s d ≤ add_int t d
unfolding add_int
add_int-le (pos n) s t h = omega arith
add_int-le (negsuc n) s t h = omega arith
