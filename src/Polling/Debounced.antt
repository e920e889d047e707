-- ===== src/Polling/Debounced.antt =====
-- `useDebounced` of frontend/src/hooks.ts: a value that trails another by `ms`. The values are a
-- parameter, with `Object.is` on them.
pub mod Burst
use proxyforward.Common.{ℕ, ◌+◌, Bool, true, false, Option, none, some}
use proxyforward.Common.Tests.{leb, if◌then◌else◌}

module _ (V : Type 0) (same : V → V → Bool) (ms : ℕ) where
  -- `timer` is the time at which the timer of the last effect is due.
  pub record Debounced : Type 0 where
    pub value : V
    pub shown : V
    pub timer : Option ℕ

  unfoldable pub mount : ℕ → V → Debounced
  mount now v = record { value = v; shown = v; timer = some (now + ms) }

  -- A render with a value: the clean-up and the effect run when it has changed.
  unfoldable pub render : ℕ → V → Debounced → Debounced
  render now v s = if same s.value v then s else record s { value = v; timer = some (now + ms) }

  abbrev pub fire_due : ℕ → Option ℕ → Debounced → Debounced
  fire_due now none s = s
  fire_due now (some due) s = if leb due now then record s { shown = s.value; timer = none } else s

  -- The timers that are due at a time
  unfoldable pub fire : ℕ → Debounced → Debounced
  fire now s = fire_due now s.timer s
