-- ===== src/State.antt =====
-- frontend/src/state.ts: the formatters of durations and byte counts, the fleet's health, the
-- scope labels and the flags. Times are whole milliseconds; `Duration` and `Bytes` prove what the
-- printed text says of the value.
pub mod Duration
pub mod Bytes
pub mod Health
pub mod Flags
use mathlib.Core.Option
use Prim.Native.String.{String}
use text.Mathlib.Text.{◌==◌ as str_eq}
use proxyforward.Common.{
  ℕ, zero, suc, ◌+◌, ◌-◌, ◌*◌, ◌/◌, ◌%◌, Bool, ◌&&◌, ◌||◌, true, false, Option, none, some, List,
  [], ◌∷◌, ◌++◌,
}
use proxyforward.Common.Tests.{ltb, leb, ◌==◌, if◌then◌else◌}
use proxyforward.Common.Lists.{find?}
use proxyforward.Common.Decimal.{Text, codes, decimal}
use proxyforward.Common.Int.{ℤ, pos, negsuc, floor_div, rem, is_positive, max_zero, show}

-- `fmtUptime` after its first line, at s whole seconds.
unfoldable pub print_uptime : ℤ → Text
print_uptime s =
    let d = floor_div s 86400 in
    let h = floor_div (rem s 86400) 3600 in
    let m = floor_div (rem s 3600) 60 in
    let sec = rem s 60 in
    if is_positive d
    then show d ++ (codes "d " ++ (show h ++ codes "h"))
    else if is_positive h
    then show h ++ (codes "h " ++ (show m ++ codes "m"))
    else if is_positive m
    then show m ++ (codes "m " ++ (show sec ++ codes "s"))
    else show sec ++ codes "s"

-- `fmtUptime`, which is also given the negative spans of a clock that was set back.
unfoldable pub fmt_uptime : ℤ → Text
unfolding print_uptime
fmt_uptime ms = print_uptime (floor_div ms 1000)

-- `fmtDuration` after its first line, at s whole seconds.
unfoldable pub print_duration : ℕ → Text
print_duration s =
    let h = s / 3600 in
    let m = s % 3600 / 60 in
    let sec = s % 60 in
    if ltb 0 h
    then decimal h ++ (codes "h " ++ (decimal m ++ codes "m"))
    else if ltb 0 m
    then decimal m ++ (codes "m " ++ (decimal sec ++ codes "s"))
    else decimal sec ++ codes "s"

-- `fmtDuration`
unfoldable pub fmt_duration : ℤ → Text
unfolding print_duration
fmt_duration ms = print_duration (max_zero (floor_div ms 1000))

-- A number that `fmtBytes` is given: NaN or below 0, or the exact value num / den of a double.
pub data Amount : Type 0 where
  invalid : Amount
  fraction : ℕ → ℕ → Amount

-- `Math.round(num / den)`: halves go up.
abbrev pub round : ℕ → ℕ → ℕ
round num den = (2 * num + den) / (2 * den)

-- `(num / den).toFixed(1)`: the nearest tenth, of two the larger.
abbrev pub to_fixed : ℕ → ℕ → Text
to_fixed num den =
    let tenths = round (10 * num) den in
    decimal (tenths / 10) ++ (codes "." ++ decimal (tenths % 10))

-- The value v = num / den after i divisions by 1024.
pub record Scaled : Type 0 where
  pub num : ℕ
  pub den : ℕ
  pub i : ℕ

-- The loop of `fmtBytes`, with `left` divisions before the last unit. To divide a double by 1024
-- changes its exponent only.
unfoldable pub scale : ℕ → ℕ → ℕ → ℕ → Scaled
scale zero num den i = record { num = num; den = den; i = i }
scale (suc left) num den i =
    let rest = scale left num (den * 1024) (i + 1) in
    if leb (1024 * den) num then rest else record { num = num; den = den; i = i }

abbrev pub unit : ℕ → Text
unit zero = codes "B"
unit (suc zero) = codes "KiB"
unit (suc (suc zero)) = codes "MiB"
unit (suc (suc (suc zero))) = codes "GiB"
unit _ = codes "TiB"

-- The template at the end of `fmtBytes`.
unfoldable pub print_scaled : Scaled → Text
print_scaled v =
    (if leb (100 * v.den) v.num || v.i == 0
      then decimal (round v.num v.den)
      else to_fixed v.num v.den)
    ++ (codes " " ++ unit v.i)

-- `fmtBytes`
unfoldable pub fmt_bytes : Amount → Text
fmt_bytes invalid = codes "0 B"
fmt_bytes (fraction num den) = if num == 0 then codes "0 B" else print_scaled (scale 4 num den 0)

-- `fmtRate`
unfoldable pub fmt_rate : Amount → Text
unfolding fmt_bytes
fmt_rate v = fmt_bytes v ++ codes "/s"

pub record Scope : Type 0 where
  pub value : String
  pub label : String

-- `BANDWIDTH_SCOPES`
abbrev pub bandwidth_scopes : List Scope
bandwidth_scopes =
    (record { value = "combined"; label = "Combined" })
    ∷ (record { value = "per-direction"; label = "Per-direction" })
    ∷ (record { value = "per-connection"; label = "Per-connection" })
    ∷ []

-- `s || t`, on texts
abbrev pub or_else : String → String → String
or_else s t = if str_eq s "" then t else s

-- `scopeLabel`
unfoldable pub scope_label : String → String
scope_label s =
    Option.get_or
      (Option.map (λ o. o.label)
        (find? (λ o. str_eq o.value (or_else s "combined")) bandwidth_scopes))
      "Combined"

-- `hasRtt`
abbrev pub has_rtt : ℤ → Bool
has_rtt = is_positive

-- The verdicts of `worstHealth`.
pub data Tone : Type 0 where
  good warn bad : Tone

-- The loop of `worstHealth`, over the health scores of the items.
unfoldable pub worst_from : Tone → List String → Tone
worst_from tone [] = tone
worst_from tone (score ∷ rest) =
    if str_eq score "bad"
    then bad
    else worst_from (if str_eq score "warn" || str_eq score "unknown" then warn else tone) rest

-- `worstHealth`
unfoldable pub worst_health : List String → Tone
unfolding worst_from
worst_health scores = worst_from good scores

-- `/[A-Za-z]/`
abbrev pub is_letter : ℕ → Bool
is_letter c = leb b'A' c && leb c b'Z' || leb b'a' c && leb c b'z'

-- `toUpperCase`, at a letter that passed the test
abbrev pub to_upper : ℕ → ℕ
to_upper c = if leb b'a' c then c - 32 else c

-- `flagEmoji`, as the two code points of the emoji; an absent code is `none`, like an empty one.
unfoldable pub flag_emoji : Option Text → Option (ℕ × ℕ)
flag_emoji none = none
flag_emoji (some (a ∷ b ∷ [])) =
    if is_letter a && is_letter b
    then some (0x1f1e6 + to_upper a - 65, 0x1f1e6 + to_upper b - 65)
    else none
flag_emoji (some _) = none
