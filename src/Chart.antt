-- ===== src/Chart.antt =====
-- The data side of frontend/src/components/BandwidthChart.tsx: the spans in which the app recorded,
-- and the gauges whose value may be unknown. A bucket is what a function reads of it: the start of
-- its slot, in whole milliseconds, or its gauge, where -1 says unknown. A path of the drawing is a
-- list of moves and lines to points. `Coverage`, `Gauges` and `Close` have the theorems.
pub mod Coverage
pub mod Gauges
pub mod Close
pub mod Buckets
pub mod Candles
pub mod Hover
pub mod Stats
use proxyforward.Common.{
  ℕ, zero, suc, ◌+◌, ◌*◌, Bool, true, false, Option, none, some, List, [], ◌∷◌, ◌++◌,
}
use proxyforward.Common.Int.{ℤ, pos, negsuc}
use proxyforward.Common.Tests.{if◌then◌else◌, leb}

pub record Run : Type 0 where
  pub a : ℕ
  pub b : ℕ

-- The loop of `coverageRuns` while a run is the last one: a start within half a slot of its end
-- joins it. The times are doubled, so that half a slot is a whole number.
unfoldable pub runs_from : ℕ → Run → List ℕ → List Run
runs_from ms last [] = last ∷ []
runs_from ms last (t ∷ ts) = elim (leb (2 * t) (2 * last.b + ms)) [
  | true ↦ runs_from ms (record { a = last.a; b = t + ms }) ts
  | false ↦ last ∷ runs_from ms (record { a = t; b = t + ms }) ts
]

-- `coverageRuns`
unfoldable pub coverage_runs : ℕ → List ℕ → List Run
unfolding runs_from
coverage_runs ms [] = []
coverage_runs ms (t ∷ ts) = runs_from ms (record { a = t; b = t + ms }) ts

-- The loop of `mergeGaugeClose` goes through the group from its end: the list is the group
-- backwards.
unfoldable pub last_known : List ℤ → ℤ
last_known [] = negsuc 0
last_known (pos n ∷ vs) = pos n
last_known (negsuc n ∷ vs) = last_known vs

abbrev pub reversed : List ℤ → List ℤ → List ℤ
reversed acc [] = acc
reversed acc (v ∷ vs) = reversed (v ∷ acc) vs

-- `mergeGaugeClose`
unfoldable pub merge_gauge_close : List ℤ → ℤ
unfolding last_known
merge_gauge_close vs = last_known (reversed [] vs)

-- The loop of `avgGauge`, with its sum and its count.
unfoldable pub sum_known : ℕ → ℕ → List ℤ → ℕ × ℕ
sum_known sum n [] = (sum, n)
sum_known sum n (pos v ∷ vs) = sum_known (sum + v) (suc n) vs
sum_known sum n (negsuc v ∷ vs) = sum_known sum n vs

-- `n ? sum / n : null`
abbrev pub average : ℕ × ℕ → Option (ℕ × ℕ)
average (sum, zero) = none
average (sum, suc n) = some (sum, suc n)

-- `avgGauge`: the average is the fraction sum / n.
unfoldable pub avg_gauge : List ℤ → Option (ℕ × ℕ)
unfolding sum_known
avg_gauge vs = average (sum_known 0 0 vs)

-- A piece of a path, `M` or `L`.
pub data Piece {ℓ} (A : Type ℓ) : Type ℓ where
  move : A → Piece A
  line : A → Piece A

module _ {ℓ} {A : Type ℓ} where
  -- `cur.length === 0 ? 'M' : 'L'`
  abbrev pub draw : List (Piece A) → A → List (Piece A)
  draw [] p = move p ∷ []
  draw (c ∷ cs) p = (c ∷ cs) ++ line p ∷ []

  -- `flush`, on what is yet to come
  abbrev pub flush : List (Piece A) → List (List (Piece A)) → List (List (Piece A))
  flush [] rest = rest
  flush (c ∷ cs) rest = (c ∷ cs) ∷ rest

  -- The loop of `gappedSegments`, with the path that is being drawn: a point is known or not.
  unfoldable pub segments : List (Piece A) → List (Option A) → List (List (Piece A))
  segments cur [] = flush cur []
  segments cur (none ∷ ps) = flush cur (segments [] ps)
  segments cur (some p ∷ ps) = segments (draw cur p) ps

  -- `gappedSegments`
  unfoldable pub gapped_segments : List (Option A) → List (List (Piece A))
  unfolding segments
  gapped_segments ps = segments [] ps
