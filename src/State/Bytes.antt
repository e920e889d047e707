-- ===== src/State/Bytes.antt =====
-- What the text of `fmtBytes` (frontend/src/state.ts) says of the number: its unit is the right
-- one, and a reader of the digits, written for itself, finds the value up to the rounding.
use native.Mathlib.Nat.{pow-suc, pow-zero}
use mathlib.Core.List.{append_assoc}
use proxyforward.Common.{
  ℕ, zero, suc, ◌+◌, ◌-◌, ◌*◌, ◌%◌, ◌^◌, ◌≤◌, ◌<◌, ◌≡◌, refl, sym, ◌∙◌, false, ◌||◌, [], ◌∷◌, ◌++◌,
  arith, inl, inr,
}
use proxyforward.Common.Tests.{leb, lt→ltb, leb→le, ◌==◌, if◌then◌else◌, Bool-cases}
use proxyforward.Common.Lists.{All}
use proxyforward.Common.Decimal.{
  Text, decimal, IsDigit, read_digit, read_digits, decimal-IsDigit, read_digits-decimal,
}
use proxyforward.State.{fraction, round, to_fixed, Scaled, scale, unit, print_scaled, fmt_bytes}

-- The unit is the one to which the loop comes: the value at the unit before is at least 1024 and
-- the value at this unit is below 1024, but for the last unit.
record IsUnitOf (num den left i : ℕ) (v : Scaled) : Type 0 where
  same : v.num ≡ num
  scaled : v.den ≡ den * 1024 ^ (v.i - i)
  from : i ≤ v.i
  within : v.i ≤ i + left
  enough : i < v.i → v.den ≤ num
  least : v.i < i + left → num < 1024 * v.den

-- One more division in front.
IsUnitOf-suc :
    {num den left i : ℕ} {v : Scaled}
    → 1024 * den ≤ num
    → IsUnitOf num (den * 1024) left (i + 1) v
    → IsUnitOf num den (suc left) i v
IsUnitOf-suc {num} {den} {left} {i} {v} h u = record {
  same = u.same;
  scaled = rw step (u.scaled ∙ rw pow-suc (omega arith));
  from = omega (arith, u.from);
  within = omega (arith, u.within);
  enough = λ _. elim (Bool-cases (v.i == i + 1)) [
    | inl last ↦ omega (arith, at_next (ground arith))
    | inr more ↦ u.enough (ground (arith, u.from))
  ];
  least = λ k. u.least (omega arith);
}
  where
    step : v.i - i ≡ suc (v.i - (i + 1))
    step = omega (arith, u.from)

    at_next : v.i ≡ i + 1 → v.den ≡ den * 1024
    at_next e =
        let none_left : v.i - (i + 1) ≡ 0 = omega arith in u.scaled ∙ rw none_left (omega arith)

scale-IsUnitOf : (left num den i : ℕ) → IsUnitOf num den left i (scale left num den i)
unfolding scale
scale-IsUnitOf zero num den i = record {
  same = refl;
  scaled = at_start;
  from = omega arith;
  within = omega arith;
  enough = λ k. absurd (omega arith);
  least = λ k. absurd (omega arith);
}
  where
    at_start : den ≡ den * 1024 ^ (i - i)
    at_start = let no_step : i - i ≡ 0 = omega arith in rw no_step (omega arith)
scale-IsUnitOf (suc left) num den i = elim (Bool-cases (leb (1024 * den) num)) [
  | inl p ↦
      rw p (IsUnitOf-suc (leb→le (1024 * den) num p) (scale-IsUnitOf left num (den * 1024) (i + 1)))
  | inr p ↦ rw p (record {
    same = refl;
    scaled = let no_step : i - i ≡ 0 = omega arith in rw no_step (omega arith);
    from = omega arith;
    within = omega arith;
    enough = λ k. absurd (omega arith);
    least = λ k. ground arith;
  })
]

-- One digit behind the point.
abbrev read_tenth : ℕ → Text → ℕ
read_tenth v [] = v * 10
read_tenth v (c ∷ cs) = v * 10 + (c - 48)

-- Reads the number in front of the unit, in tenths.
unfoldable pub read_tenths : ℕ → Text → ℕ
read_tenths v [] = v * 10
read_tenths v (c ∷ cs) =
    if c == b'.'
    then read_tenth v cs
    else if c == b' '
    then v * 10
    else read_tenths (read_digit v c) cs

-- The text behind the first space.
unfoldable pub after_space : Text → Text
after_space [] = []
after_space (c ∷ cs) = if c == b' ' then cs else after_space cs

read_tenths-digits :
    (v : ℕ) (xs ys : Text)
    → All IsDigit xs
    → read_tenths v (xs ++ ys) ≡ read_tenths (read_digits v xs) ys
unfolding read_tenths
read_tenths-digits v [] ys h = refl
read_tenths-digits v (x ∷ xs) ys (p, h) =
    ground (arith, read_tenths-digits (read_digit v x) xs ys h)

after_space-digits : (xs ys : Text) → All IsDigit xs → after_space (xs ++ ys) ≡ after_space ys
unfolding after_space
after_space-digits [] ys h = refl
after_space-digits (x ∷ xs) ys (p, h) = ground (arith, after_space-digits xs ys h)

read_tenths-decimal : (n : ℕ) (ys : Text) → read_tenths 0 (decimal n ++ ys) ≡ read_tenths n ys
read_tenths-decimal n ys =
    rw (read_tenths-digits 0 (decimal n) ys (decimal-IsDigit n), read_digits-decimal n)

after_space-decimal : (n : ℕ) (ys : Text) → after_space (decimal n ++ ys) ≡ after_space ys
after_space-decimal n ys = after_space-digits (decimal n) ys (decimal-IsDigit n)

-- A digit is its own decimal.
decimal-lt : (n : ℕ) → n < 10 → decimal n ≡ (48 + n) ∷ []
unfolding decimal
decimal-lt n h = rw (lt→ltb n 10 h)

-- The two forms of the number, read from the whole text.
read_whole :
    (n : ℕ) (ys : Text)
    → (read_tenths 0 (decimal n ++ b' ' ∷ ys) ≡ n * 10)
      × (after_space (decimal n ++ b' ' ∷ ys) ≡ ys)
unfolding read_tenths after_space
read_whole n ys = (read_tenths-decimal n (b' ' ∷ ys), after_space-decimal n (b' ' ∷ ys))

read_fixed :
    (num den : ℕ) (ys : Text)
    → (read_tenths 0 (to_fixed num den ++ b' ' ∷ ys) ≡ round (10 * num) den)
      × (after_space (to_fixed num den ++ b' ' ∷ ys) ≡ ys)
unfolding read_tenths after_space
read_fixed num den ys =
    let n = round (10 * num) den in
    rw (append_assoc, decimal-lt (n % 10) (omega arith), read_tenths-decimal, after_space-decimal)
      (omega arith, ground arith)

-- Rounding: r is a whole number nearest to num / den.
round_near :
    (num den : ℕ)
    → 0 < den
    → (2 * (den * round num den) ≤ 2 * num + den) × (2 * num < 2 * (den * round num den) + den)
round_near num den h = (grind arith, grind arith)

-- What a text says of the value num / den: its unit is the largest of B, KiB, MiB, GiB and TiB of
-- which the value has at least one (B below that), and the number of units, as a reader finds it
-- in tenths, is off by at most half a unit, and by at most half a tenth where tenths are shown.
pub record Shows (num den : ℕ) (text : Text) : Type 0 where
  pub i : ℕ
  pub known : i ≤ 4
  pub named : after_space text ≡ unit i
  pub enough : 0 < i → den * 1024 ^ i ≤ num
  pub least : i < 4 → num < 1024 * (den * 1024 ^ i)
  pub above : 2 * (den * 1024 ^ i * read_tenths 0 text) ≤ 20 * num + 10 * (den * 1024 ^ i)
  pub below : 20 * num ≤ 2 * (den * 1024 ^ i * read_tenths 0 text) + 10 * (den * 1024 ^ i)
  pub fine_above :
      0 < i
      → num < 100 * (den * 1024 ^ i)
      → 2 * (den * 1024 ^ i * read_tenths 0 text) ≤ 20 * num + den * 1024 ^ i
  pub fine_below :
      0 < i
      → num < 100 * (den * 1024 ^ i)
      → 20 * num ≤ 2 * (den * 1024 ^ i * read_tenths 0 text) + den * 1024 ^ i

-- The number of the printed value, for a value in any unit.
record Reads (v : Scaled) (text : Text) : Type 0 where
  named : after_space text ≡ unit v.i
  above : 2 * (v.den * read_tenths 0 text) ≤ 20 * v.num + 10 * v.den
  below : 20 * v.num ≤ 2 * (v.den * read_tenths 0 text) + 10 * v.den
  fine_above : 0 < v.i → v.num < 100 * v.den → 2 * (v.den * read_tenths 0 text) ≤ 20 * v.num + v.den
  fine_below : 0 < v.i → v.num < 100 * v.den → 20 * v.num ≤ 2 * (v.den * read_tenths 0 text) + v.den

print_scaled-Reads : (v : Scaled) → 0 < v.den → Reads v (print_scaled v)
unfolding print_scaled
print_scaled-Reads v h = elim (Bool-cases (leb (100 * v.den) v.num || v.i == 0)) [
  | inl whole ↦
      let r = read_whole (round v.num v.den) (unit v.i) in
      let near = round_near v.num v.den h in
      rw whole (record {
        named = r.1;
        above = rw r.0 (omega arith);
        below = rw r.0 (omega arith);
        fine_above = λ p q. absurd (ground arith);
        fine_below = λ p q. absurd (ground arith);
      })
  | inr tenths ↦
      let r = read_fixed v.num v.den (unit v.i) in
      let near = round_near (10 * v.num) v.den h in
      rw tenths (record {
        named = r.1;
        above = rw r.0 (omega arith);
        below = rw r.0 (omega arith);
        fine_above = λ p q. rw r.0 (omega arith);
        fine_below = λ p q. rw r.0 (omega arith);
      })
]

Shows-of_Reads :
    {num den : ℕ} {v : Scaled} {text : Text}
    → IsUnitOf num den 4 0 v
    → Reads v text
    → Shows num den text
Shows-of_Reads {num} {den} {v} u r = record {
  i = v.i;
  known = u.within;
  named = r.named;
  enough = λ p. rw all (u.enough p);
  least = λ p. rw all (u.least p);
  above = rw (all, ← u.same) r.above;
  below = rw (all, ← u.same) r.below;
  fine_above = λ p q. rw (all, ← u.same) (r.fine_above p (rw (all, ← u.same) at q));
  fine_below = λ p q. rw (all, ← u.same) (r.fine_below p (rw (all, ← u.same) at q));
}
  where
    all : den * 1024 ^ v.i ≡ v.den
    all = let no_step : v.i - 0 ≡ v.i = omega arith in sym (u.scaled ∙ rw no_step)

pow_pos : (k : ℕ) → 0 < 1024 ^ k
pow_pos zero = rw pow-zero (omega arith)
pow_pos (suc k) = rw pow-suc (omega (arith, pow_pos k))

-- For every number above 0 the text of `fmtBytes` shows it as `Shows` says.
pub fmt_bytes-Shows :
    (num den : ℕ) → 0 < num → 0 < den → Shows num den (fmt_bytes (fraction num den))
unfolding fmt_bytes
fmt_bytes-Shows num den h k =
    let u = scale-IsUnitOf 4 num den 0 in
    let v = scale 4 num den 0 in
    let some_den : 0 < v.den = rw u.scaled (grind (arith, pow_pos (v.i - 0))) in
    let positive : (num == 0) ≡ false = ground arith in
    rw positive (Shows-of_Reads u (print_scaled-Reads v some_den))
