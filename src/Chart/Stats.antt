-- ===== src/Chart/Stats.antt =====
-- The statistics in `StatsRow` of frontend/src/components/BandwidthChart.tsx. The rates of a range
-- have one denominator, the width of a bucket, and are given by their numerators.
use native.Mathlib.Nat.{mul-le-mul_right}
use proxyforward.Common.{
  ℕ, suc, ◌+◌, ◌*◌, ◌≤◌, Bool, true, false, Option, none, some, List, [], ◌∷◌, arith, inl, inr,
}
use proxyforward.Common.Tests.{if◌then◌else◌, leb, ◌==◌, Bool-cases}
use proxyforward.Common.Lists.{length}
use proxyforward.History.{ChartMode, line, candles, bars}
use proxyforward.Chart.Buckets.{Bucket, total, highest, lowest, last_of, max_of, min_of}

-- `stats`: the average is sum / count.
pub data Stats : Type 0 where
  totals : (dn up peak : ℕ) → Stats
  rates : (min sum count max last : ℕ) → Stats

-- `b.out * 1000`
abbrev pub rate : Bucket → ℕ
rate b = b.bytes_out * 1000

abbrev pub is_bars : ChartMode → Bool
is_bars bars = true
is_bars line = false
is_bars candles = false

unfoldable pub stats : ChartMode → ℕ → List Bucket → Option Stats
stats mode ms [] = none
stats mode ms (b ∷ bs) =
    if ms == 0
    then none
    else if is_bars mode
    then some (
        totals (total (λ c. c.bytes_out) (b ∷ bs)) (total (λ c. c.bytes_in) (b ∷ bs))
          (highest (λ c. c.bytes_out) (b ∷ bs)))
    else some (
        rates (lowest rate b bs) (total rate (b ∷ bs)) (length (b ∷ bs)) (highest rate (b ∷ bs))
          (rate (last_of b bs)))

scale_down : (a l n s : ℕ) → l * n ≤ s → min_of a l * suc n ≤ a + s
scale_down a l n s h = elim (Bool-cases (leb a l)) [
  | inl e ↦ let le : a ≤ l = ground (arith, e) in rw e (omega (arith, mul-le-mul_right n le))
  | inr e ↦ let ge : l ≤ a = ground (arith, e) in rw e (omega arith)
]

scale_up : (a h n s : ℕ) → s ≤ h * n → a + s ≤ max_of a h * suc n
scale_up a h n s g = elim (Bool-cases (leb a h)) [
  | inl e ↦ let le : a ≤ h = ground (arith, e) in rw e (omega arith)
  | inr e ↦ let ge : h ≤ a = ground (arith, e) in rw e (omega (arith, mul-le-mul_right n ge))
]

lowest-le_total :
    (b : Bucket) (bs : List Bucket) → lowest rate b bs * length (b ∷ bs) ≤ total rate (b ∷ bs)
lowest-le_total b [] = omega arith
lowest-le_total b (c ∷ bs) =
    scale_down (rate b) (lowest rate c bs) (length (c ∷ bs)) (total rate (c ∷ bs))
      (lowest-le_total c bs)

total-le_highest : (bs : List Bucket) → total rate bs ≤ highest rate bs * length bs
total-le_highest [] = omega arith
total-le_highest (b ∷ bs) =
    scale_up (rate b) (highest rate bs) (length bs) (total rate bs) (total-le_highest bs)

last-bounds :
    (b : Bucket) (bs : List Bucket)
    → (lowest rate b bs ≤ rate (last_of b bs)) × (rate (last_of b bs) ≤ highest rate (b ∷ bs))
last-bounds b [] = (ground arith, ground arith)
last-bounds b (c ∷ bs) = let (low, high) = last-bounds c bs in (ground arith, ground arith)

-- What the row says of the rates of a range is in order: the least is at most the average and the
-- last, and these are at most the greatest.
abbrev pub IsOrdered : Option Stats → Type 0
IsOrdered none = Unit
IsOrdered (some (totals dn up peak)) = peak ≤ dn
IsOrdered (some (rates min sum count max last)) =
    (min * count ≤ sum) × (sum ≤ max * count) × (min ≤ last) × (last ≤ max) × (1 ≤ count)

highest-le_total : (get : Bucket → ℕ) (bs : List Bucket) → highest get bs ≤ total get bs
highest-le_total get [] = omega arith
highest-le_total get (b ∷ bs) = ground (arith, highest-le_total get bs)

-- What the row says is in order, for any buckets: the least rate is at most the average and the last
-- one, and these are at most the greatest one; the greatest count of bytes is at most their total.
pub stats-IsOrdered : (mode : ChartMode) (ms : ℕ) (bs : List Bucket) → IsOrdered (stats mode ms bs)
unfolding stats
stats-IsOrdered mode ms [] = tt
stats-IsOrdered mode ms (b ∷ bs) = elim (Bool-cases (ms == 0)) [
  | inl e ↦ rw e tt
  | inr e ↦ elim (Bool-cases (is_bars mode)) [
    | inl f ↦ rw (e, f) (highest-le_total (λ c. c.bytes_out) (b ∷ bs))
    | inr f ↦
        let (low, high) = last-bounds b bs in
        rw (e, f) (lowest-le_total b bs, total-le_highest (b ∷ bs), low, high, omega arith)
  ]
]
