-- ===== src/Chart/Close.antt =====
-- The close value of a candle's gauge in frontend/src/components/BandwidthChart.tsx.
use proxyforward.Common.{ℕ, ◌≡◌, refl, List, [], ◌∷◌, ◌++◌}
use proxyforward.Common.Int.{ℤ, pos, negsuc}
use proxyforward.Common.Lists.{All}
use proxyforward.Chart.{last_known, reversed, merge_gauge_close}

abbrev pub IsUnknown : ℤ → Type 0
IsUnknown (pos n) = ⊥
IsUnknown (negsuc n) = Unit

reversed-append :
    (acc vs : List ℤ) (v : ℤ) (ws : List ℤ)
    → reversed acc (vs ++ v ∷ ws) ≡ reversed (v ∷ reversed acc vs) ws
reversed-append acc [] v ws = refl
reversed-append acc (u ∷ us) v ws = reversed-append (u ∷ acc) us v ws

-- Unknown values behind change nothing.
last_known-reversed :
    (acc ws : List ℤ) → All IsUnknown ws → last_known (reversed acc ws) ≡ last_known acc
unfolding last_known
last_known-reversed acc [] h = refl
last_known-reversed acc (negsuc n ∷ ws) (p, h) = last_known-reversed (negsuc n ∷ acc) ws h
last_known-reversed acc (pos n ∷ ws) (p, h) = absurd p

-- The value of a group is the last known one, and -1 where all are unknown.
pub merge_gauge_close-last :
    (before after : List ℤ) (n : ℕ)
    → All IsUnknown after
    → (merge_gauge_close (before ++ pos n ∷ after) ≡ pos n) × (merge_gauge_close after ≡ negsuc 0)
unfolding merge_gauge_close last_known
merge_gauge_close-last before after n h = (
  rw (reversed-append [] before (pos n) after)
      (last_known-reversed (pos n ∷ reversed [] before) after h),
  last_known-reversed [] after h,
)
