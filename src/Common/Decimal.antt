-- ===== src/Common/Decimal.antt =====
-- Text as a list of UTF-16 code units, and the digits that `String(n)` writes for a whole number.
use Prim.Native.Nat.{ℕ, zero, suc, ◌+◌, ◌*◌, ◌-◌, ◌/◌, ◌%◌, ◌≤◌, ◌<◌}
use Prim.Native.Char.{code}
use Prim.Native.String.{String}
use mathlib.Core.Path.{◌≡◌, refl}
use mathlib.Core.Bool.{Bool, true, false, ◌&&◌}
use mathlib.Core.List.{List, [], ◌∷◌, ◌++◌}
use native.Mathlib.Omega.{arith}
use mathlib.Core.Logic.{inl, inr}
use proxyforward.Common.Tests.{◌==◌, ltb, ltb→lt, if◌then◌else◌, Bool-cases}
use proxyforward.Common.Lists.{All}

abbrev pub Text : Type 0
Text = List ℕ

-- The code units of a literal of the source, all of them below 0x10000.
abbrev pub codes : String → Text
codes String.[] = []
codes (String.◌∷◌ c s) = code c ∷ codes s

-- `a === b` on texts
abbrev pub text_eq : Text → Text → Bool
text_eq [] [] = true
text_eq (a ∷ s) (b ∷ t) = a == b && text_eq s t
text_eq _ _ = false

pub text_eq_refl : (s : Text) → text_eq s s ≡ true
text_eq_refl [] = refl
text_eq_refl (a ∷ s) = ground (arith, text_eq_refl s)

pub eq_of_text_eq : (s t : Text) → text_eq s t ≡ true → s ≡ t
eq_of_text_eq [] [] h = refl
eq_of_text_eq [] (b ∷ t) h = cc
eq_of_text_eq (a ∷ s) [] h = cc
eq_of_text_eq (a ∷ s) (b ∷ t) h = ground (arith, eq_of_text_eq s t)

-- The decimal digits of a number, the first digit first; each round takes one digit off.
pub digits : ℕ → ℕ → Text
digits zero n = []
digits (suc fuel) n =
    let rest = digits fuel (n / 10) in
    if ltb n 10 then (48 + n) ∷ [] else rest ++ (48 + n % 10) ∷ []

-- `String(n)`: a number has at most as many digits as it has units, so this fuel is enough.
unfoldable pub decimal : ℕ → Text
unfolding digits
decimal n = digits (suc n) n

-- A digit of a decimal number.
abbrev pub IsDigit : ℕ → Type 0
IsDigit c = (48 ≤ c) × (c < 58)

-- One character of a number that is read from the left.
abbrev pub read_digit : ℕ → ℕ → ℕ
read_digit v c = v * 10 + (c - 48)

abbrev pub read_digits : ℕ → Text → ℕ
read_digits v [] = v
read_digits v (c ∷ cs) = read_digits (read_digit v c) cs

All-append-IsDigit : (xs : Text) {c : ℕ} → All IsDigit xs → IsDigit c → All IsDigit (xs ++ c ∷ [])
All-append-IsDigit [] h p = (p, tt)
All-append-IsDigit (x ∷ xs) (q, h) p = (q, All-append-IsDigit xs h p)

digits-IsDigit : (fuel n : ℕ) → All IsDigit (digits fuel n)
unfolding digits
digits-IsDigit zero n = tt
digits-IsDigit (suc fuel) n = elim (Bool-cases (ltb n 10)) [
  | inl small ↦ rw small ((omega arith, omega (arith, ltb→lt n 10 small)), tt)
  | inr large ↦
      rw large
        (All-append-IsDigit (digits fuel (n / 10)) (digits-IsDigit fuel (n / 10)) (omega arith))
]

read_digits-append :
    (v : ℕ) (xs ys : Text) → read_digits v (xs ++ ys) ≡ read_digits (read_digits v xs) ys
read_digits-append v [] ys = refl
read_digits-append v (x ∷ xs) ys = read_digits-append (read_digit v x) xs ys

read_digits-digits : (fuel n : ℕ) → n < fuel → read_digits 0 (digits fuel n) ≡ n
unfolding digits
read_digits-digits zero n h = elim h [ ]
read_digits-digits (suc fuel) n h = elim (Bool-cases (ltb n 10)) [
  | inl small ↦ rw small (omega arith)
  | inr large ↦
      rw (large, read_digits-append)
        (omega (arith, read_digits-digits fuel (n / 10) (ground arith)))
]

-- Every character of `String(n)` is a digit.
pub decimal-IsDigit : (n : ℕ) → All IsDigit (decimal n)
unfolding decimal
decimal-IsDigit n = digits-IsDigit (suc n) n

-- `String(n)` reads back as `n`.
pub read_digits-decimal : (n : ℕ) → read_digits 0 (decimal n) ≡ n
unfolding decimal
read_digits-decimal n = read_digits-digits (suc n) n (omega arith)

append_last : (xs : Text) (x : ℕ) → (c : ℕ) × (cs : Text) × (xs ++ x ∷ [] ≡ c ∷ cs)
append_last [] x = (x, [], refl)
append_last (y ∷ ys) x = (y, ys ++ x ∷ [], refl)

-- `String(n)` is never empty.
pub decimal-cons : (n : ℕ) → (c : ℕ) × (cs : Text) × (decimal n ≡ c ∷ cs)
unfolding decimal digits
decimal-cons n = elim (Bool-cases (ltb n 10)) [
  | inl e ↦ rw e (48 + n, [], refl)
  | inr e ↦ rw e (append_last (digits n (n / 10)) (48 + n % 10))
]
