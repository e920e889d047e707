-- ===== src/Ticks.antt =====
-- `timeTicks` of frontend/src/components/charts/util.ts: the times at which a chart of a window has
-- its grid lines. Times are whole milliseconds since 1970. The local calendar is a parameter: the
-- midnight before a time, which `Date.setHours` finds. `Grid` has the theorems; the labels are
-- those of `toLocaleDateString` and the local clock, and are left out.
pub mod Grid
pub mod Chart
use mathlib.Core.Option
use proxyforward.Common.{ℕ, zero, suc, ◌+◌, ◌-◌, ◌*◌, ◌/◌, Bool, true, false, List, [], ◌∷◌}
use proxyforward.Common.Tests.{ltb, leb, if◌then◌else◌}
use proxyforward.Common.Lists.{find?, filter}

-- `steps`
abbrev pub steps : List ℕ
steps =
    1_000 ∷ 2_000 ∷ 5_000 ∷ 10_000 ∷ 15_000 ∷ 30_000 ∷ 60_000 ∷ 120_000 ∷ 300_000 ∷ 600_000
    ∷ 900_000 ∷ 1_800_000 ∷ 3_600_000 ∷ 7_200_000 ∷ 10_800_000 ∷ 21_600_000 ∷ 43_200_000
    ∷ 86_400_000 ∷ 172_800_000 ∷ 604_800_000 ∷ []

-- `steps.find(s => span / s <= 7) ?? steps[steps.length - 1]`
unfoldable pub step_for : ℕ → ℕ
step_for span = Option.get_or (find? (λ s. leb span (7 * s)) steps) 604_800_000

-- `Math.max(1, t1 - t0)`
abbrev pub span_of : ℕ → ℕ → ℕ
span_of t0 t1 = if ltb 1 (t1 - t0) then t1 - t0 else 1

-- `for (let t = from; t <= t1; t += step)`, on fuel: each round needs one.
pub ticks : ℕ → ℕ → ℕ → ℕ → List ℕ
ticks zero step t1 t = []
ticks (suc fuel) step t1 t = elim (leb t t1) [
  | true ↦ t ∷ ticks fuel step t1 (t + step)
  | false ↦ []
]

-- A step is at least 1, so there are at most as many rounds as there are milliseconds left.
abbrev pub rounds : ℕ → ℕ → ℕ
rounds t1 t = suc (t1 - t)

-- The two loops of `timeTicks`.
unfoldable pub time_ticks : (ℕ → ℕ) → ℕ → ℕ → List ℕ
unfolding step_for ticks
time_ticks midnight t0 t1 =
    let step = step_for (span_of t0 t1) in
    let day = midnight t0 in
    let start = (t0 + (step - 1)) / step * step in
    if leb 86_400_000 step
    then filter (λ t. leb t0 t) (ticks (rounds t1 day) step t1 day)
    else ticks (rounds t1 start) step t1 start
