-- ===== src/History/Laws.antt =====
-- The chart preferences of frontend/src/history.ts, read back, and the modes of the ranges.
use proxyforward.Common.{ℕ, ◌≡◌, refl, Bool, true, false, ◌&&◌, ◌||◌}
use proxyforward.Common.Tests.{ltb, leb, ◌==◌, if◌then◌else◌}
use proxyforward.Prefs.{Storage}
use proxyforward.History.{
  RangeKey, s15, m1, m15, h1, h6, h24, d7, d30, all, ChartMode, ranges, line, candles, bars,
  load_range_pref, save_range_pref, load_flag, save_flag, candles_key, uptime_key, mode_for,
}

-- What the chart reads of the storage.
abbrev pub read_all : Storage → RangeKey × Bool × Bool
read_all s = (load_range_pref s, load_flag candles_key s, load_flag uptime_key s)

load-save_range_pref : (r : RangeKey) (s : Storage) → load_range_pref (save_range_pref r s) ≡ r
unfolding load_range_pref save_range_pref
load-save_range_pref s15 s = refl
load-save_range_pref m1 s = refl
load-save_range_pref m15 s = refl
load-save_range_pref h1 s = refl
load-save_range_pref h6 s = refl
load-save_range_pref h24 s = refl
load-save_range_pref d7 s = refl
load-save_range_pref d30 s = refl
load-save_range_pref all s = refl

load-save_candles :
    (on : Bool) (s : Storage) → load_flag candles_key (save_flag candles_key on s) ≡ on
unfolding load_flag save_flag
load-save_candles true s = refl
load-save_candles false s = refl

load-save_uptime : (on : Bool) (s : Storage) → load_flag uptime_key (save_flag uptime_key on s) ≡ on
unfolding load_flag save_flag
load-save_uptime true s = refl
load-save_uptime false s = refl

-- Each preference of the chart is read back as it was saved, and saving it leaves the others.
pub read_all-save :
    (r : RangeKey) (on : Bool) (s : Storage)
    → (read_all (save_range_pref r s) ≡ (r, load_flag candles_key s, load_flag uptime_key s))
      × (read_all (save_flag candles_key on s) ≡ (load_range_pref s, on, load_flag uptime_key s))
      × (read_all (save_flag uptime_key on s) ≡ (load_range_pref s, load_flag candles_key s, on))
read_all-save r on s = (
  rw (load-save_range_pref r s) (unfold save_range_pref load_flag in refl),
  rw (load-save_candles on s) (unfold save_flag load_flag load_range_pref in refl),
  rw (load-save_uptime on s) (unfold save_flag load_flag load_range_pref in refl),
)

-- The mode by the window of a range alone, 0 being everything there is.
abbrev pub mode_of : ℕ → Bool → ChartMode
mode_of window on =
    if window == 0 || ltb 86_400_000 window
    then bars
    else if on && leb 900_000 window
    then candles
    else line

-- Windows of more than a day are drawn as bars, whatever is preferred; candles, where they are
-- preferred, from 15 minutes on; and lines otherwise.
pub mode_for-eq-mode_of :
    (r : RangeKey) (on : Bool) → mode_for r on ≡ mode_of (ranges r).window_ms on
unfolding mode_for
mode_for-eq-mode_of s15 true = refl
mode_for-eq-mode_of s15 false = refl
mode_for-eq-mode_of m1 true = refl
mode_for-eq-mode_of m1 false = refl
mode_for-eq-mode_of m15 true = refl
mode_for-eq-mode_of m15 false = refl
mode_for-eq-mode_of h1 true = refl
mode_for-eq-mode_of h1 false = refl
mode_for-eq-mode_of h6 true = refl
mode_for-eq-mode_of h6 false = refl
mode_for-eq-mode_of h24 true = refl
mode_for-eq-mode_of h24 false = refl
mode_for-eq-mode_of d7 true = refl
mode_for-eq-mode_of d7 false = refl
mode_for-eq-mode_of d30 true = refl
mode_for-eq-mode_of d30 false = refl
mode_for-eq-mode_of all true = refl
mode_for-eq-mode_of all false = refl
