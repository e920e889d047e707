-- ===== src/History.antt =====
-- frontend/src/history.ts: the ranges of the bandwidth chart, the way that each is drawn, and the
-- stored preferences of the chart. `Laws` has the theorems. `useBandwidthHistory` is modelled with
-- the polling hooks; the visibility of the series is stored as JSON and is left out.
pub mod Laws
use Prim.Native.String.{String}
use text.Mathlib.Text.{◌==◌ as str_eq}
use proxyforward.Common.{ℕ, Bool, true, false, ◌&&◌, Option, none, some, List, [], ◌∷◌}
use proxyforward.Common.Tests.{if◌then◌else◌}
use proxyforward.Prefs.{Storage, write, holds}

-- `RangeKey`
pub data RangeKey : Type 0 where
  s15 m1 m15 h1 h6 h24 d7 d30 all : RangeKey

-- `ChartMode`
pub data ChartMode : Type 0 where
  line candles bars : ChartMode

-- `RangeSpec`, where `render` is a mode that is no candles
pub record RangeSpec : Type 0 where
  pub label : String
  pub window_ms : ℕ
  pub poll_ms : ℕ
  pub buckets : ℕ
  pub render : ChartMode
  pub candles_ok : Bool

abbrev range_spec : String → ℕ → ℕ → ℕ → ChartMode → Bool → RangeSpec
range_spec label window_ms poll_ms buckets render candles_ok = record {
  label = label;
  window_ms = window_ms;
  poll_ms = poll_ms;
  buckets = buckets;
  render = render;
  candles_ok = candles_ok;
}

-- `RANGES`
abbrev pub ranges : RangeKey → RangeSpec
ranges s15 = range_spec "15s" 15_000 250 150 line false
ranges m1 = range_spec "1m" 60_000 500 300 line false
ranges m15 = range_spec "15m" 900_000 1_000 300 line true
ranges h1 = range_spec "1h" 3_600_000 5_000 240 line true
ranges h6 = range_spec "6h" 21_600_000 15_000 288 line true
ranges h24 = range_spec "24h" 86_400_000 30_000 288 line true
ranges d7 = range_spec "7d" 604_800_000 60_000 168 bars false
ranges d30 = range_spec "30d" 2_592_000_000 60_000 30 bars false
ranges all = range_spec "All" 0 60_000 300 bars false

-- The text of a key.
abbrev pub key_text : RangeKey → String
key_text s15 = "15s"
key_text m1 = "1m"
key_text m15 = "15m"
key_text h1 = "1h"
key_text h6 = "6h"
key_text h24 = "24h"
key_text d7 = "7d"
key_text d30 = "30d"
key_text all = "all"

-- `RANGE_KEYS`
abbrev pub range_keys : List RangeKey
range_keys = s15 ∷ m1 ∷ m15 ∷ h1 ∷ h6 ∷ h24 ∷ d7 ∷ d30 ∷ all ∷ []

-- `RANGES[v]`, on the record's own keys
abbrev pub key_of : List RangeKey → String → Option RangeKey
key_of [] v = none
key_of (k ∷ ks) v = if str_eq (key_text k) v then some k else key_of ks v

abbrev pub or_minute : Option RangeKey → RangeKey
or_minute none = m1
or_minute (some k) = k

-- `loadRangePref` and `saveRangePref`
unfoldable pub load_range_pref : Storage → RangeKey
load_range_pref s = elim (s "pf-chart-range") [
  | none ↦ m1
  | some v ↦ or_minute (key_of range_keys v)
]

unfoldable pub save_range_pref : RangeKey → Storage → Storage
save_range_pref r s = write "pf-chart-range" (some (key_text r)) s

-- `loadCandlePref`, `saveCandlePref`, `loadUptimePref` and `saveUptimePref`
unfoldable pub load_flag : String → Storage → Bool
load_flag key s = holds s key "1"

unfoldable pub save_flag : String → Bool → Storage → Storage
save_flag key on s = write key (some (if on then "1" else "0")) s

abbrev pub candles_key : String
candles_key = "pf-chart-candles"

abbrev pub uptime_key : String
uptime_key = "pf-chart-uptime"

-- `modeFor`
unfoldable pub mode_for : RangeKey → Bool → ChartMode
mode_for range on =
    let spec = ranges range in
    elim spec.render [
      | bars ↦ bars
      | line ↦ if on && spec.candles_ok then candles else line
      | candles ↦ if on && spec.candles_ok then candles else line
    ]
