-- ===== src/Common/Int.antt =====
-- The whole numbers of the program that may be negative, with the rounding of JavaScript.
use Prim.Native.Nat.{ℕ, zero, suc, ◌-◌, ◌/◌, ◌%◌}
use mathlib.Core.Path.{◌≡◌, refl}
use mathlib.Core.Bool.{Bool, true, false}
use native.Mathlib.Omega.{arith}
use mathlib.Core.List.{◌∷◌}
use proxyforward.Common.Tests.{ltb, leb, if◌then◌else◌}
use proxyforward.Common.Decimal.{Text, decimal}

-- `negsuc n` is -(n + 1).
pub data ℤ : Type 0 where
  pos : ℕ → ℤ
  negsuc : ℕ → ℤ

-- -n; the -0 of JavaScript prints and compares as 0.
abbrev pub neg : ℕ → ℤ
neg zero = pos 0
neg (suc n) = negsuc n

-- a - b, as an integer.
abbrev pub sub_ℕ : ℕ → ℕ → ℤ
sub_ℕ a b = if leb b a then pos (a - b) else negsuc (b - a - 1)

-- `Math.floor(a / k)`, at a positive k.
abbrev pub floor_div : ℤ → ℕ → ℤ
floor_div (pos n) k = pos (n / k)
floor_div (negsuc n) k = negsuc (n / k)

-- `a % k`, which has the sign of a.
abbrev pub rem : ℤ → ℕ → ℤ
rem (pos n) k = pos (n % k)
rem (negsuc n) k = neg (suc n % k)

-- `a > 0`
abbrev pub is_positive : ℤ → Bool
is_positive (pos (suc n)) = true
is_positive _ = false

-- `Math.max(0, a)`
abbrev pub max_zero : ℤ → ℕ
max_zero (pos n) = n
max_zero (negsuc n) = 0

-- `String(a)`
abbrev pub show : ℤ → Text
show (pos n) = decimal n
show (negsuc n) = b'-' ∷ decimal (suc n)

pub is_positive-pos : (n : ℕ) → is_positive (pos n) ≡ ltb 0 n
is_positive-pos zero = refl
is_positive-pos (suc n) = ground arith
