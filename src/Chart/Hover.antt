-- ===== src/Chart/Hover.antt =====
-- `resolveHover` of frontend/src/components/BandwidthChart.tsx: the bucket under the cursor. Lengths
-- are whole multiples of a fraction of a pixel, and both sides of a comparison with `x(t)` are
-- multiplied by the span, so that all is exact; a center is given by twice its time.
use proxyforward.Common.{
  ℕ, ◌+◌, ◌-◌, ◌*◌, ◌/◌, ◌≤◌, ◌<◌, ◌≡◌, ◌⊎◌, Bool, ◌&&◌, Option, none, some, List, [], ◌∷◌,
}
use proxyforward.Common.Tests.{leb, ltb}
use proxyforward.Common.Lists.{find?, filter}
use proxyforward.Chart.Buckets.{Bucket, zero_bucket, max_of, min_of}

-- The plot: its times from t0 to t1, and where it stands.
pub record Plotted : Type 0 where
  pub t0 : ℕ
  pub t1 : ℕ
  pub span : ℕ
  pub pad_l : ℕ
  pub plot_w : ℕ

-- `x(t)`, times the span
abbrev pub x_of : Plotted → ℕ → ℕ
x_of p t = p.pad_l * p.span + (t - p.t0) * p.plot_w

-- `hoverX >= x(b.t) && hoverX < x(b.t + bucketMs)`
unfoldable pub is_over : Plotted → ℕ → ℕ → Bucket → Bool
is_over p ms hover b = leb (x_of p b.t) (hover * p.span) && ltb (hover * p.span) (x_of p (b.t + ms))

-- The time under the cursor, in whole milliseconds
unfoldable pub hover_time : Plotted → ℕ → ℕ
hover_time p hover = min_of (p.t1 - 1) (max_of p.t0 (p.t0 + (hover - p.pad_l) * p.span / p.plot_w))

abbrev pub centered : ℕ → Bucket → Bucket × ℕ
centered ms b = (b, 2 * b.t + ms)

-- The bucket that the loop finds, or a quiet one
abbrev pub found_or : Plotted → ℕ → ℕ → Option Bucket → Bucket
found_or p ms hover (some b) = b
found_or p ms hover none = zero_bucket (hover_time p hover / ms * ms)

-- `resolveHover`
unfoldable pub resolve_hover : Plotted → ℕ → ℕ → List Bucket → Option (Bucket × ℕ)
unfolding hover_time is_over
resolve_hover p ms hover [] = none
resolve_hover p ms hover (b ∷ bs) =
    some (centered ms (found_or p ms hover (find? (is_over p ms hover) (b ∷ bs))))

-- What the cursor is over: the first bucket in whose slot it is, or, when it is in no slot, a quiet
-- bucket of the grid in whose slot its time is.
abbrev pub IsUnder : Plotted → ℕ → ℕ → List Bucket → Bucket → Type 0
IsUnder p ms hover bs b =
    ((rest : List Bucket) × (filter (is_over p ms hover) bs ≡ b ∷ rest))
    ⊎ ((filter (is_over p ms hover) bs ≡ [])
        × (b ≡ zero_bucket b.t)
        × ((n : ℕ) × (b.t ≡ n * ms))
        × (b.t ≤ hover_time p hover)
        × (hover_time p hover < b.t + ms))
