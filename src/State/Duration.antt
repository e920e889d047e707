-- ===== src/State/Duration.antt =====
-- What the text of `fmtUptime` and `fmtDuration` (frontend/src/state.ts) says of the time: a reader
-- of such texts, written for itself, finds the time again, rounded down to the last unit shown.
use proxyforward.Common.{
  ℕ, ◌+◌, ◌-◌, ◌*◌, ◌/◌, ◌%◌, ◌≤◌, ◌<◌, ◌≡◌, refl, ◌∙◌, Bool, false, ◌&&◌, [], ◌∷◌, ◌++◌, arith,
  inl, inr,
}
use proxyforward.Common.Tests.{ltb, leb, lt→ltb, leb→le, ◌==◌, if◌then◌else◌, Bool-cases}
use proxyforward.Common.Lists.{All}
use proxyforward.Common.Decimal.{
  Text, decimal, IsDigit, read_digit, read_digits, decimal-IsDigit, read_digits-decimal,
}
use proxyforward.Common.Int.{ℤ, pos, floor_div, max_zero, is_positive-pos}
use proxyforward.State.{print_uptime, print_duration, fmt_uptime, fmt_duration}

-- The seconds that a unit's letter stands for; other characters separate.
abbrev pub seconds_in : ℕ → ℕ
seconds_in c =
    if c == b'd'
    then 86400
    else if c == b'h'
    then 3600
    else if c == b'm'
    then 60
    else if c == b's'
    then 1
    else 0

abbrev pub is_digit : ℕ → Bool
is_digit c = leb 48 c && ltb c 58

-- Reads a text such as `2d 3h` from the left: `cur` is the number read so far.
read_units : ℕ → ℕ → Text → ℕ
read_units total cur [] = total
read_units total cur (c ∷ cs) =
    read_units (if is_digit c then total else total + cur * seconds_in c)
      (if is_digit c then read_digit cur c else 0) cs

unfoldable pub read_seconds : Text → ℕ
unfolding read_units
read_seconds t = read_units 0 0 t

read_units-digits :
    (total cur : ℕ) (xs ys : Text)
    → All IsDigit xs
    → read_units total cur (xs ++ ys) ≡ read_units total (read_digits cur xs) ys
unfolding read_units
read_units-digits total cur [] ys h = refl
read_units-digits total cur (x ∷ xs) ys (p, h) =
    ground (arith, read_units-digits total (read_digit cur x) xs ys h)

read_units-decimal :
    (total n : ℕ) (ys : Text) → read_units total 0 (decimal n ++ ys) ≡ read_units total n ys
read_units-decimal total n ys =
    rw (read_units-digits total 0 (decimal n) ys (decimal-IsDigit n), read_digits-decimal n)

-- The finest unit that `fmtDuration` shows for a time of s seconds.
abbrev pub step_of : ℕ → ℕ
step_of s = if leb 3600 s then 60 else 1

-- `fmtUptime` drops the minutes after a day.
abbrev pub uptime_step_of : ℕ → ℕ
uptime_step_of s = if leb 86400 s then 3600 else step_of s

read_units-letter :
    (total n c : ℕ) (cs : Text)
    → is_digit c ≡ false
    → read_units total n (c ∷ cs) ≡ read_units (total + n * seconds_in c) 0 cs
unfolding read_units
read_units-letter total n c cs h = simp h

-- A text of one or two numbers with their units reads as their sum.
pub read_one :
    (n c : ℕ) → is_digit c ≡ false → read_seconds (decimal n ++ c ∷ []) ≡ n * seconds_in c
unfolding read_seconds
read_one n c h =
    read_units-decimal 0 n (c ∷ [])
    ∙ read_units-letter 0 n c [] h
    ∙ unfold read_units in omega arith

pub read_two :
    (n c k e : ℕ)
    → is_digit c ≡ false
    → is_digit e ≡ false
    → read_seconds (decimal n ++ c ∷ b' ' ∷ (decimal k ++ e ∷ []))
      ≡ n * seconds_in c + k * seconds_in e
unfolding read_seconds
read_two n c k e h g =
    let last : Text = decimal k ++ e ∷ [] in
    let sum = n * seconds_in c in
    read_units-decimal 0 n (c ∷ b' ' ∷ last)
    ∙ read_units-letter 0 n c (b' ' ∷ last) h
    ∙ read_units-letter (0 + sum) 0 b' ' last refl
    ∙ read_units-decimal (0 + sum + 0) k (e ∷ [])
    ∙ read_units-letter (0 + sum + 0) k e [] g
    ∙ unfold read_units in omega arith

read-print_duration : (s : ℕ) → read_seconds (print_duration s) ≡ s - s % step_of s
unfolding print_duration
read-print_duration s =
    let h = s / 3600 in
    let m = s % 3600 / 60 in
    elim (Bool-cases (ltb 0 h)) [
      | inl p ↦ rw p (read_two h b'h' m b'm' refl refl ∙ ground arith)
      | inr p ↦ elim (Bool-cases (ltb 0 m)) [
        | inl q ↦ rw (p, q) (read_two m b'm' (s % 60) b's' refl refl ∙ ground arith)
        | inr q ↦ rw (p, q) (read_one (s % 60) b's' refl ∙ ground arith)
      ]
    ]

-- The duration of ms, read back from its text, is its whole seconds rounded down to the last
-- unit that the text shows; a negative span reads as 0.
pub read-fmt_duration :
    (ms : ℤ)
    → let s = max_zero (floor_div ms 1000) in read_seconds (fmt_duration ms) ≡ s - s % step_of s
unfolding fmt_duration
read-fmt_duration ms = read-print_duration (max_zero (floor_div ms 1000))

print_uptime-day :
    (s : ℕ)
    → 86400 ≤ s
    → print_uptime (pos s)
      ≡ decimal (s / 86400) ++ b'd' ∷ b' ' ∷ (decimal (s % 86400 / 3600) ++ b'h' ∷ [])
unfolding print_uptime
print_uptime-day s h = rw (is_positive-pos, lt→ltb 0 (s / 86400) (omega arith))

print_uptime-short : (s : ℕ) → s < 86400 → print_uptime (pos s) ≡ print_duration s
unfolding print_uptime print_duration
print_uptime-short s h =
    let no_day : s / 86400 ≡ 0 = omega arith in
    let same : s % 86400 ≡ s = omega arith in rw (no_day, same) (simp is_positive-pos)

read-print_uptime : (s : ℕ) → read_seconds (print_uptime (pos s)) ≡ s - s % uptime_step_of s
read-print_uptime s = elim (Bool-cases (leb 86400 s)) [
  | inl p ↦
      rw (print_uptime-day s (leb→le 86400 s p), p)
        (read_two (s / 86400) b'd' (s % 86400 / 3600) b'h' refl refl ∙ omega arith)
  | inr p ↦ rw (print_uptime-short s (ground arith), p) (read-print_duration s)
]

-- The uptime of ms, read back from its text, is its whole seconds rounded down to the hour from
-- the first day on, and before that to the last unit that the text shows.
pub read-fmt_uptime :
    (ms : ℕ) → let s = ms / 1000 in read_seconds (fmt_uptime (pos ms)) ≡ s - s % uptime_step_of s
unfolding fmt_uptime
read-fmt_uptime ms = read-print_uptime (ms / 1000)

-- Below a day the two formatters print the same text.
pub fmt_uptime-eq-fmt_duration :
    (ms : ℕ) → ms < 86_400_000 → fmt_uptime (pos ms) ≡ fmt_duration (pos ms)
unfolding fmt_uptime fmt_duration
fmt_uptime-eq-fmt_duration ms h = print_uptime-short (ms / 1000) (omega arith)
