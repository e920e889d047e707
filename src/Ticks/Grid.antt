-- ===== src/Ticks/Grid.antt =====
-- The grid of `timeTicks` in frontend/src/components/charts/util.ts.
use mathlib.Core.Option
use native.Mathlib.Omega.{div_any}
use native.Mathlib.Nat.{mod-lt}
use proxyforward.Common.{
  ℕ, zero, suc, ◌+◌, ◌-◌, ◌*◌, ◌/◌, ◌%◌, ◌≤◌, ◌<◌, ◌≡◌, refl, ◌∙◌, Bool, true, false, Option, none,
  some, List, [], ◌∷◌, arith, inl, inr,
}
use proxyforward.Common.Tests.{leb, leb→le, if◌then◌else◌, Bool-cases, some-inj}
use proxyforward.Common.Lists.{get_elem?, length, All, find?, filter}
use proxyforward.Ticks.{steps, step_for, span_of, ticks, rounds, time_ticks}

leb-false : (a b : ℕ) → b < a → leb a b ≡ false
leb-false a b h = ground arith

ticks-on :
    (fuel step t1 t : ℕ)
    → leb t t1 ≡ true
    → ticks (suc fuel) step t1 t ≡ t ∷ ticks fuel step t1 (t + step)
unfolding ticks
ticks-on fuel step t1 t e = rw (ticks, e) refl

ticks-off : (fuel step t1 t : ℕ) → leb t t1 ≡ false → ticks (suc fuel) step t1 t ≡ []
unfolding ticks
ticks-off fuel step t1 t e = rw (ticks, e) refl

-- The lines are t, t + step and so on, up to t1.
get_elem?-ticks :
    (fuel step t1 t i : ℕ)
    → 1 ≤ step
    → t1 < t + fuel
    → get_elem? (ticks fuel step t1 t) i
      ≡ (if leb (t + i * step) t1 then some (t + i * step) else none)
get_elem?-ticks zero step t1 t i s h =
    rw (leb-false (t + i * step) t1 (omega arith)) (unfold ticks in refl)
get_elem?-ticks (suc fuel) step t1 t zero s h =
    let here : t + 0 * step ≡ t = omega arith in
    elim (Bool-cases (leb t t1)) [
      | inl e ↦ rw (ticks-on fuel step t1 t e, here, e) refl
      | inr e ↦ rw (ticks-off fuel step t1 t e, here, e) refl
    ]
get_elem?-ticks (suc fuel) step t1 t (suc i) s h =
    let on : t + suc i * step ≡ t + step + i * step = omega arith in
    elim (Bool-cases (leb t t1)) [
      | inl e ↦
          rw (ticks-on fuel step t1 t e, on)
            (get_elem?-ticks fuel step t1 (t + step) i s (omega arith))
      | inr e ↦ rw (ticks-off fuel step t1 t e, leb-false (t + suc i * step) t1 (ground arith)) refl
    ]

ticks-bounds :
    (fuel step t1 t0 t : ℕ) → t0 ≤ t → All (λ u. (t0 ≤ u) × (u ≤ t1)) (ticks fuel step t1 t)
ticks-bounds zero step t1 t0 t h = unfold ticks in tt
ticks-bounds (suc fuel) step t1 t0 t h =
    let rest = ticks-bounds fuel step t1 t0 (t + step) (omega arith) in
    elim (Bool-cases (leb t t1)) [
      | inl e ↦ rw (ticks-on fuel step t1 t e) ((h, leb→le t t1 e), rest)
      | inr e ↦ rw (ticks-off fuel step t1 t e) tt
    ]

filter-bounds :
    (t0 t1 d : ℕ) (ts : List ℕ)
    → All (λ u. (d ≤ u) × (u ≤ t1)) ts
    → All (λ u. (t0 ≤ u) × (u ≤ t1)) (filter (λ t. leb t0 t) ts)
filter-bounds t0 t1 d [] h = tt
filter-bounds t0 t1 d (t ∷ ts) ((_, p), h) = elim (Bool-cases (leb t0 t)) [
  | inl e ↦ rw e ((leb→le t0 t e, p), filter-bounds t0 t1 d ts h)
  | inr e ↦ rw e (filter-bounds t0 t1 d ts h)
]

-- The first multiple of a step from t0 on.
abbrev pub aligned : ℕ → ℕ → ℕ
aligned step t0 = (t0 + (step - 1)) / step * step

aligned-bounds : (step t0 : ℕ) → 1 ≤ step → (t0 ≤ aligned step t0) × (aligned step t0 < t0 + step)
aligned-bounds step t0 h =
    let n = t0 + (step - 1) in
    let whole : step * (n / step) + n % step ≡ n = div_any n step in
    let small : n % step < step = mod-lt n (omega arith) in (omega arith, omega arith)

find?-holds :
    (p : ℕ → Bool) (xs : List ℕ) {x : ℕ}
    → All (λ s. 1 ≤ s) xs
    → find? p xs ≡ some x
    → (p x ≡ true) × (1 ≤ x)
find?-holds p [] h e = cc
find?-holds p (y ∷ ys) {x} (l, h) e = elim (Bool-cases (p y)) [
  | inl q ↦ let same : y ≡ x = some-inj (rw q at e) in rw (← same) (q, l)
  | inr q ↦ find?-holds p ys h (rw q at e)
]

-- What holds of the found step holds of the step that is taken, or it is the last one.
get_or-holds :
    (span last : ℕ) (o : Option ℕ)
    → 1 ≤ last
    → ((s : ℕ) → o ≡ some s → (leb span (7 * s) ≡ true) × (1 ≤ s))
    → (1 ≤ Option.get_or o last)
      × (Option.get_or o last < last → leb span (7 * Option.get_or o last) ≡ true)
get_or-holds span last none l f = (l, λ h. absurd (omega arith))
get_or-holds span last (some s) l f = let (holds, positive) = f s refl in (positive, λ h. holds)

step_for-holds :
    (span : ℕ)
    → (1 ≤ step_for span) × (step_for span < 604_800_000 → leb span (7 * step_for span) ≡ true)
unfolding step_for
step_for-holds span =
    get_or-holds span 604_800_000 (find? (λ s. leb span (7 * s)) steps) (omega arith)
      (λ s e. find?-holds (λ s. leb span (7 * s)) steps all_positive e)
  where
    all_positive : All (λ s. 1 ≤ s) steps
    all_positive = omega arith

-- The lines of a grid below a day: the multiples of the step in the window, in order.
pub record IsGrid (t0 t1 step : ℕ) (ts : List ℕ) : Type 0 where
  pub first : ℕ
  pub factor : ℕ
  pub multiple : first ≡ factor * step
  pub least : (t0 ≤ first) × (first < t0 + step)
  pub lines :
      (i : ℕ)
      → get_elem? ts i ≡ (if leb (first + i * step) t1 then some (first + i * step) else none)

-- Where the lines are closer than a day, they are the multiples of the step from the first one in
-- the window on, up to its end.
pub time_ticks-IsGrid :
    (midnight : ℕ → ℕ) (t0 t1 : ℕ)
    → step_for (span_of t0 t1) < 86_400_000
    → IsGrid t0 t1 (step_for (span_of t0 t1)) (time_ticks midnight t0 t1)
unfolding time_ticks
time_ticks-IsGrid midnight t0 t1 h =
    let step = step_for (span_of t0 t1) in
    let positive : 1 ≤ step = (step_for-holds (span_of t0 t1)).0 in
    let start = aligned step t0 in
    rw (leb-false 86_400_000 step h) (record {
      first = start;
      factor = (t0 + (step - 1)) / step;
      multiple = refl;
      least = aligned-bounds step t0 positive;
      lines = λ i. get_elem?-ticks (rounds t1 start) step t1 start i positive (omega arith);
    })

length-le : (ts : List ℕ) (n : ℕ) → get_elem? ts n ≡ none → length ts ≤ n
length-le [] n h = omega arith
length-le (t ∷ ts) zero h = cc
length-le (t ∷ ts) (suc n) h = omega (arith, length-le ts n h)

-- Where the lines are closer than a day, there are at most eight of them.
pub length-time_ticks :
    (midnight : ℕ → ℕ) (t0 t1 : ℕ)
    → step_for (span_of t0 t1) < 86_400_000
    → length (time_ticks midnight t0 t1) ≤ 8
length-time_ticks midnight t0 t1 h =
    let step = step_for (span_of t0 t1) in
    let (positive, fits) = step_for-holds (span_of t0 t1) in
    let grid = time_ticks-IsGrid midnight t0 t1 h in
    let (from, below) = grid.least in
    let wide : span_of t0 t1 ≤ 7 * step = leb→le (span_of t0 t1) (7 * step) (fits (omega arith)) in
    length-le (time_ticks midnight t0 t1) 8
      (grid.lines 8 ∙ rw (leb-false (grid.first + 8 * step) t1 (ground arith)) refl)

-- Every line is in the window, those of whole days too.
pub time_ticks-bounds :
    (midnight : ℕ → ℕ) (t0 t1 : ℕ) → All (λ t. (t0 ≤ t) × (t ≤ t1)) (time_ticks midnight t0 t1)
unfolding time_ticks
time_ticks-bounds midnight t0 t1 =
    let step = step_for (span_of t0 t1) in
    let (positive, _) = step_for-holds (span_of t0 t1) in
    let day = midnight t0 in
    let start = aligned step t0 in
    elim (Bool-cases (leb 86_400_000 step)) [
      | inl e ↦ rw e (
          filter-bounds t0 t1 day (ticks (rounds t1 day) step t1 day)
            (ticks-bounds (rounds t1 day) step t1 day day (omega arith)))
      | inr e ↦
          rw e
            (ticks-bounds (rounds t1 start) step t1 t0 start ((aligned-bounds step t0 positive).0))
    ]
