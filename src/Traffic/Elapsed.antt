-- ===== src/Traffic/Elapsed.antt =====
-- The spans of time of the traffic screen, fmtElapsed of frontend/src/screens/Traffic.tsx, and how
-- they are read back; and its times of day that lie back, fmtRelative.
use proxyforward.Common.{ℕ, ◌+◌, ◌*◌, ◌/◌, ◌%◌, ◌≡◌, refl, [], ◌∷◌, ◌++◌, inl, inr, arith}
use mathlib.Core.List.{append-nil}
use proxyforward.Common.Tests.{◌==◌, ltb, if◌then◌else◌, Bool-cases}
use proxyforward.Common.Lists.{All}
use proxyforward.Common.Int.{ℤ, pos, floor_div, max_zero, sub_ℕ}
use proxyforward.Common.Decimal.{
  Text, codes, decimal, IsDigit, read_digit, read_digits, decimal-IsDigit, read_digits-decimal,
}

-- `padStart(2, '0')` of a number of one digit or two
abbrev pub pad : ℕ → Text
pad n = if ltb n 10 then b'0' ∷ decimal n else decimal n

-- The text for a number of seconds
abbrev pub clock : ℕ → Text
clock s =
    let h = s / 3600 in
    let m = (s % 3600) / 60 in
    if ltb 0 h
    then decimal h ++ (b':' ∷ (pad m ++ (b':' ∷ pad (s % 60))))
    else decimal m ++ (b':' ∷ pad (s % 60))

-- `fmtElapsed`
unfoldable pub fmt_elapsed : ℤ → Text
fmt_elapsed ms = clock (max_zero (floor_div ms 1000))

-- `Math.round(n / k)`, at a k that is even
abbrev pub round_div : ℕ → ℕ → ℕ
round_div n k = (n + k / 2) / k

-- `fmtRelative`, at the time `now`
unfoldable pub fmt_relative : ℕ → ℕ → Text
fmt_relative now t =
    if t == 0
    then codes "—"
    else let s = max_zero (floor_div (sub_ℕ now t) 1000) in
      if ltb s 45
      then codes "just now"
      else if ltb s 3600
      then decimal (round_div s 60) ++ codes "m ago"
      else if ltb s 86400
      then decimal (round_div s 3600) ++ codes "h ago"
      else if ltb s (7 * 86400)
      then decimal (round_div s 86400) ++ codes "d ago"
      else decimal (round_div s (7 * 86400)) ++ codes "w ago"

-- A reader of `h:mm:ss` and `m:ss`: each colon is worth a factor of 60.
read_clock : ℕ → ℕ → Text → ℕ
read_clock acc cur [] = acc * 60 + cur
read_clock acc cur (c ∷ cs) =
    read_clock (if c == b':' then acc * 60 + cur else acc)
      (if c == b':' then 0 else read_digit cur c) cs

unfoldable pub read_elapsed : Text → ℕ
unfolding read_clock
read_elapsed t = read_clock 0 0 t

read_clock-digits :
    (acc cur : ℕ) (xs ys : Text)
    → All IsDigit xs
    → read_clock acc cur (xs ++ ys) ≡ read_clock acc (read_digits cur xs) ys
unfolding read_clock
read_clock-digits acc cur [] ys h = refl
read_clock-digits acc cur (x ∷ xs) ys (p, h) =
    ground (arith, read_clock-digits acc (read_digit cur x) xs ys h)

read_clock-decimal :
    (acc n : ℕ) (ys : Text) → read_clock acc 0 (decimal n ++ ys) ≡ read_clock acc n ys
read_clock-decimal acc n ys =
    rw (read_clock-digits acc 0 (decimal n) ys (decimal-IsDigit n), read_digits-decimal n)

read_clock-pad : (acc n : ℕ) (ys : Text) → read_clock acc 0 (pad n ++ ys) ≡ read_clock acc n ys
read_clock-pad acc n ys = elim (Bool-cases (ltb n 10)) [
  | inl e ↦ rw e (unfold read_clock in read_clock-decimal acc n ys)
  | inr e ↦ rw e (read_clock-decimal acc n ys)
]

read_clock-last : (acc n : ℕ) → read_clock acc 0 (pad n) ≡ acc * 60 + n
unfolding read_clock
read_clock-last acc n = rw (append-nil (pad n)) at (read_clock-pad acc n [])

read_clock-clock : (s : ℕ) → read_clock 0 0 (clock s) ≡ s
unfolding read_clock
read_clock-clock s = elim (Bool-cases (ltb 0 (s / 3600))) [
  | inl e ↦ rw e (rw (read_clock-decimal, read_clock-pad, read_clock-last) (omega arith))
  | inr e ↦ rw e (rw (read_clock-decimal, read_clock-last) (ground (arith, e)))
]

-- `fmtElapsed` shows the whole seconds of a span of time: they are read back from its text.
pub read-fmt_elapsed : (ms : ℕ) → read_elapsed (fmt_elapsed (pos ms)) ≡ ms / 1000
unfolding read_elapsed fmt_elapsed
read-fmt_elapsed ms = read_clock-clock (ms / 1000)
