-- ===== src/Ticker.antt =====
-- frontend/src/components/NumberTicker.tsx: a number that glides to its value. The numbers are a
-- parameter, with `===` on them and with what is shown so many milliseconds after a start; all of
-- them are finite. A frame is a callback of requestAnimationFrame.
pub mod Settled
use proxyforward.Common.{ℕ, ◌-◌, Bool, true, false, Option, none, some}
use proxyforward.Common.Tests.{leb, if◌then◌else◌}

module _ (V : Type 0) (same : V → V → Bool) (eased : V → V → ℕ → V) (duration : ℕ)
    (reduced : Bool) where
  -- `from` is `fromRef`, and `run` the start of the animation that waits for its next frame.
  pub record Ticker : Type 0 where
    pub value : V
    pub display : V
    pub from : V
    pub run : Option ℕ

  unfoldable pub mount : V → Ticker
  mount v = record { value = v; display = v; from = v; run = none }

  -- The effect at a value
  abbrev pub begin : ℕ → V → Ticker → Ticker
  begin now v s =
      if reduced
      then record s { value = v; display = v; from = v; run = none }
      else if same s.from v
      then record s { value = v; run = none }
      else record s { value = v; run = some now }

  -- A render with a value: the clean-up and the effect run when it has changed.
  unfoldable pub render : ℕ → V → Ticker → Ticker
  render now v s = if same s.value v then s else begin now v s

  abbrev pub step : ℕ → Option ℕ → Ticker → Ticker
  step now none s = s
  step now (some start) s =
      if leb duration (now - start)
      then record s { display = s.value; from = s.value; run = none }
      else record s { display = eased s.from s.value (now - start) }

  unfoldable pub frame : ℕ → Ticker → Ticker
  frame now s = step now s.run s
