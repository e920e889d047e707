-- ===== src/Common/Texts.antt =====
-- Texts as JavaScript takes them apart: `trim`, `split`, `join`, `includes` and `parseInt`.
use Prim.Native.Nat.{ℕ}
use mathlib.Core.Path.{◌≡◌, refl, ap, ◌∙◌}
use mathlib.Core.Bool.{Bool, true, false, ◌&&◌, ◌||◌}
use mathlib.Core.List.{List, [], ◌∷◌, ◌++◌}
use mathlib.Core.Option.{Option, none, some}
use native.Mathlib.Omega.{arith}
use proxyforward.Common.Tests.{◌==◌, ltb, leb, if◌then◌else◌}
use proxyforward.Common.Lists.{All}
use proxyforward.Common.Decimal.{
  Text, IsDigit, read_digits, decimal, decimal-IsDigit, read_digits-decimal, decimal-cons,
}
use proxyforward.Common.Int.{ℤ, pos, neg}

-- White space: `/\s/`, and what `trim` takes off.
abbrev pub is_space : ℕ → Bool
is_space c =
    (leb 9 c && leb c 13)
    || c == 32
    || c == 160
    || c == 0x1680
    || (leb 0x2000 c && leb c 0x200a)
    || c == 0x2028
    || c == 0x2029
    || c == 0x202f
    || c == 0x205f
    || c == 0x3000
    || c == 0xfeff

abbrev pub is_empty : Text → Bool
is_empty [] = true
is_empty (c ∷ cs) = false

unfoldable pub trim_start : Text → Text
trim_start [] = []
trim_start (c ∷ cs) = if is_space c then trim_start cs else c ∷ cs

unfoldable pub trim_end : Text → Text
trim_end [] = []
trim_end (c ∷ cs) = let rest = trim_end cs in if is_space c && is_empty rest then [] else c ∷ rest

-- `trim`
unfoldable pub trim : Text → Text
unfolding trim_start trim_end
trim t = trim_end (trim_start t)

abbrev pub push_head : ℕ → List Text → List Text
push_head c [] = (c ∷ []) ∷ []
push_head c (w ∷ ws) = (c ∷ w) ∷ ws

-- `split`, at a separator of one character
unfoldable pub split : ℕ → Text → List Text
split sep [] = [] ∷ []
split sep (c ∷ cs) = if c == sep then [] ∷ split sep cs else push_head c (split sep cs)

-- `join`
unfoldable pub join : Text → List Text → Text
join sep [] = []
join sep (w ∷ []) = w
join sep (w ∷ v ∷ ws) = w ++ (sep ++ join sep (v ∷ ws))

abbrev pub starts_with : Text → Text → Bool
starts_with [] t = true
starts_with (c ∷ cs) [] = false
starts_with (c ∷ cs) (d ∷ ds) = c == d && starts_with cs ds

-- `t.includes(s)`
unfoldable pub contains : Text → Text → Bool
contains s [] = starts_with s []
contains s (c ∷ cs) = starts_with s (c ∷ cs) || contains s cs

abbrev pub is_digit : ℕ → Bool
is_digit c = leb 48 c && ltb c 58

-- The digits at the start of a text.
unfoldable pub leading : Text → Text
leading [] = []
leading (c ∷ cs) = if is_digit c then c ∷ leading cs else []

-- The number of a text's digits; without any it is NaN.
abbrev pub number_of : Text → Option ℕ
number_of [] = none
number_of (c ∷ cs) = some (read_digits 0 (c ∷ cs))

abbrev pub signed : Bool → Option ℕ → Option ℤ
signed minus none = none
signed false (some n) = some (pos n)
signed true (some n) = some (neg n)

-- `parseInt(s, 10)` of a trimmed text: a sign, and the digits up to the first other character.
unfoldable pub parse_int : Text → Option ℤ
unfolding leading
parse_int [] = none
parse_int (c ∷ cs) =
    if c == 45
    then signed true (number_of (leading cs))
    else if c == 43
    then signed false (number_of (leading cs))
    else signed false (number_of (leading (c ∷ cs)))

-- Text without white space is not trimmed.
trim_end-digits : (t : Text) → All IsDigit t → trim_end t ≡ t
unfolding trim_end
trim_end-digits [] h = refl
trim_end-digits (c ∷ cs) (p, h) = rw (trim_end-digits cs h) (ground arith)

pub trim-digits : (t : Text) → All IsDigit t → trim t ≡ t
unfolding trim trim_start
trim-digits [] h = unfold trim_end in refl
trim-digits (c ∷ cs) (p, h) =
    let solid : is_space c ≡ false = ground arith in rw solid (trim_end-digits (c ∷ cs) (p, h))

pub trim-space : (t : Text) → All IsDigit t → trim (32 ∷ t) ≡ t
unfolding trim trim_start
trim-space t h = trim-digits t h

leading-digits : (t : Text) → All IsDigit t → leading t ≡ t
unfolding leading
leading-digits [] h = refl
leading-digits (c ∷ cs) (p, h) = rw (leading-digits cs h) (ground arith)

parse_int-digits :
    (c : ℕ) (cs : Text)
    → All IsDigit (c ∷ cs)
    → parse_int (c ∷ cs) ≡ some (pos (read_digits 0 (c ∷ cs)))
unfolding parse_int
parse_int-digits c cs h =
    let no_minus : (c == 45) ≡ false = ground (arith, h.0) in
    let no_plus : (c == 43) ≡ false = ground (arith, h.0) in
    rw (no_minus, no_plus, leading-digits (c ∷ cs) h) refl

-- `parseInt(String(n), 10)`
pub parse_int-decimal : (n : ℕ) → parse_int (decimal n) ≡ some (pos n)
parse_int-decimal n =
    let (c, cs, e) = decimal-cons n in
    let all_digits : All IsDigit (c ∷ cs) = rw e at (decimal-IsDigit n) in
    let value : read_digits 0 (c ∷ cs) ≡ n = rw e at (read_digits-decimal n) in
    rw e (parse_int-digits c cs all_digits ∙ ap (λ v. some (pos v)) value)
