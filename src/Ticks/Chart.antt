-- ===== src/Ticks/Chart.antt =====
-- `ticksFor` of frontend/src/components/BandwidthChart.tsx: the grid lines of the bandwidth chart,
-- which are those of `timeTicks` below daily buckets, and bucket edges from daily buckets on. The
-- parameters are those of `time_ticks`, with the starts of the buckets.
use mathlib.Core.Option
use proxyforward.Common.{
  ℕ, zero, suc, ◌+◌, ◌-◌, ◌*◌, ◌/◌, ◌≤◌, ◌<◌, ◌≡◌, refl, ap, ◌∙◌, Bool, true, false, List, [], ◌∷◌,
  ◌++◌, arith, inl, inr,
}
use proxyforward.Common.Tests.{ltb, leb, leb→le, if◌then◌else◌, Bool-cases}
use proxyforward.Common.Lists.{length, find?, filter, All}
use proxyforward.Ticks.{steps, step_for, span_of, ticks, rounds, time_ticks}

-- `steps` of `ticksFor`
abbrev pub chart_steps : List ℕ
chart_steps =
    1_000 ∷ 2_000 ∷ 5_000 ∷ 10_000 ∷ 15_000 ∷ 30_000 ∷ 60_000 ∷ 120_000 ∷ 300_000 ∷ 600_000
    ∷ 900_000 ∷ 1_800_000 ∷ 3_600_000 ∷ 7_200_000 ∷ 10_800_000 ∷ 21_600_000 ∷ 43_200_000
    ∷ 86_400_000 ∷ 172_800_000 ∷ []

-- `steps.find(s => span / s <= 7) ?? steps[steps.length - 1]`; a span below 0 takes the first step.
unfoldable pub chart_step : ℕ → ℕ
chart_step span = Option.get_or (find? (λ s. leb span (7 * s)) chart_steps) 172_800_000

-- `for (let i = 0; i < buckets.length; i += every)`: `skip` is how many are left out first.
unfoldable pub strided : ℕ → ℕ → List ℕ → List ℕ
strided every skip [] = []
strided every zero (t ∷ ts) = t ∷ strided every (every - 1) ts
strided every (suc skip) (t ∷ ts) = strided every skip ts

-- `Math.max(1, Math.ceil(buckets.length / 6))`
abbrev pub every_for : ℕ → ℕ
every_for n = if ltb 1 ((n + 5) / 6) then (n + 5) / 6 else 1

-- `ticksFor`
unfoldable pub ticks_for : (ℕ → ℕ) → ℕ → ℕ → ℕ → List ℕ → List ℕ
unfolding chart_step strided
ticks_for midnight t0 t1 bucket_ms starts =
    let step = chart_step (t1 - t0) in
    let day = midnight t0 in
    let start = (t0 + (step - 1)) / step * step in
    if leb 86_400_000 bucket_ms
    then strided (every_for (length starts)) 0 starts
    else if leb 86_400_000 step
    then filter (λ t. leb t0 t) (ticks (rounds t1 day) step t1 day)
    else ticks (rounds t1 start) step t1 start

find?-append :
    (p : ℕ → Bool) (xs : List ℕ) (l : ℕ) (ys : List ℕ) (d e : ℕ)
    → p l ≡ true
    → Option.get_or (find? p (xs ++ l ∷ [])) d ≡ Option.get_or (find? p (xs ++ l ∷ ys)) e
find?-append p [] l ys d e h = rw h refl
find?-append p (x ∷ xs) l ys d e h = elim (Bool-cases (p x)) [
  | inl q ↦ rw q refl
  | inr q ↦ rw q (find?-append p xs l ys d e h)
]

find?-same : (p q : ℕ → Bool) (xs : List ℕ) → All (λ s. p s ≡ q s) xs → find? p xs ≡ find? q xs
find?-same p q [] h = refl
find?-same p q (x ∷ xs) (e, h) = elim (Bool-cases (q x)) [
  | inl y ↦ rw (e, y) refl
  | inr y ↦ rw (e, y) (find?-same p q xs h)
]

-- The steps below the last one.
abbrev first_steps : List ℕ
first_steps =
    1_000 ∷ 2_000 ∷ 5_000 ∷ 10_000 ∷ 15_000 ∷ 30_000 ∷ 60_000 ∷ 120_000 ∷ 300_000 ∷ 600_000
    ∷ 900_000 ∷ 1_800_000 ∷ 3_600_000 ∷ 7_200_000 ∷ 10_800_000 ∷ 21_600_000 ∷ 43_200_000
    ∷ 86_400_000 ∷ []

fits-same : (t0 t1 s : ℕ) → 1 ≤ s → leb (t1 - t0) (7 * s) ≡ leb (span_of t0 t1) (7 * s)
fits-same t0 t1 s h = elim (Bool-cases (ltb 1 (t1 - t0))) [
  | inl e ↦ rw e refl
  | inr e ↦ rw e (ground arith)
]

All-fits :
    (t0 t1 : ℕ) (xs : List ℕ)
    → All (λ s. 1 ≤ s) xs
    → All (λ s. leb (t1 - t0) (7 * s) ≡ leb (span_of t0 t1) (7 * s)) xs
All-fits t0 t1 [] h = tt
All-fits t0 t1 (x ∷ xs) (p, h) = (fits-same t0 t1 x p, All-fits t0 t1 xs h)

chart_step-eq-step_for :
    (t0 t1 : ℕ) → t1 - t0 ≤ 7 * 172_800_000 → chart_step (t1 - t0) ≡ step_for (span_of t0 t1)
unfolding chart_step step_for
chart_step-eq-step_for t0 t1 h =
    find?-append (λ s. leb (t1 - t0) (7 * s)) first_steps 172_800_000 (604_800_000 ∷ []) 172_800_000
      604_800_000 (ground arith)
    ∙ ap (λ o. Option.get_or o 604_800_000)
        (find?-same (λ s. leb (t1 - t0) (7 * s)) (λ s. leb (span_of t0 t1) (7 * s)) steps
          (All-fits t0 t1 steps (omega arith)))

-- Below daily buckets, and up to a window of two weeks, the bandwidth chart has the grid lines of
-- the other charts.
pub ticks_for-eq-time_ticks :
    (midnight : ℕ → ℕ) (t0 t1 bucket_ms : ℕ) (starts : List ℕ)
    → bucket_ms < 86_400_000
    → t1 - t0 ≤ 7 * 172_800_000
    → ticks_for midnight t0 t1 bucket_ms starts ≡ time_ticks midnight t0 t1
unfolding ticks_for time_ticks
ticks_for-eq-time_ticks midnight t0 t1 bucket_ms starts below short =
    let small : leb 86_400_000 bucket_ms ≡ false = ground arith in
    rw (small, chart_step-eq-step_for t0 t1 short) refl

length-strided :
    (every skip : ℕ) (ts : List ℕ)
    → skip < every
    → length (strided every skip ts) * every + skip < length ts + every
unfolding strided
length-strided every skip [] h = omega arith
length-strided every zero (t ∷ ts) h =
    omega (arith, length-strided every (every - 1) ts (omega arith))
length-strided every (suc skip) (t ∷ ts) h =
    omega (arith, length-strided every skip ts (omega arith))

at_most_six : (l n every : ℕ) → 1 ≤ every → n ≤ 6 * every → l * every + 0 < n + every → l ≤ 6
at_most_six l n every p h k = elim (Bool-cases (leb l 6)) [
  | inl e ↦ leb→le l 6 e
  | inr e ↦
      let seven : l ≡ 7 + (l - 7) = ground arith in
      let product : l * every ≡ 7 * every + (l - 7) * every =
        ap (λ m. m * every) seven ∙ omega arith in
      absurd (omega arith)
]

-- From daily buckets on there are at most six lines.
pub length-ticks_for :
    (midnight : ℕ → ℕ) (t0 t1 bucket_ms : ℕ) (starts : List ℕ)
    → 86_400_000 ≤ bucket_ms
    → length (ticks_for midnight t0 t1 bucket_ms starts) ≤ 6
unfolding ticks_for
length-ticks_for midnight t0 t1 bucket_ms starts daily =
    let large : leb 86_400_000 bucket_ms ≡ true = ground arith in
    let every = every_for (length starts) in
    let n = length starts in
    rw large (
      at_most_six (length (strided every 0 starts)) n every (ground arith) (ground arith)
        (length-strided every 0 starts (ground arith)))
