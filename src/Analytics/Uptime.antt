-- ===== src/Analytics/Uptime.antt =====
-- `Band` of frontend/src/screens/Analytics.tsx: the segments of an uptime band. A place on the band
-- is measured in milliseconds from t0; the source divides it by the span, which is the width of the
-- whole band.
pub mod Tiled
use proxyforward.Common.{ℕ, ◌+◌, ◌-◌, Bool, true, false, Option, none, some, List, [], ◌∷◌, ◌++◌}
use proxyforward.Common.Tests.{ltb, leb, if◌then◌else◌}
use proxyforward.Common.Lists.{filter}

pub record Event : Type 0 where
  pub t : ℕ
  pub up : Bool

pub record Segment : Type 0 where
  pub left : ℕ
  pub width : ℕ
  pub up : Option Bool

abbrev pub max : ℕ → ℕ → ℕ
max a b = if leb a b then b else a

abbrev pub min : ℕ → ℕ → ℕ
min a b = if leb a b then a else b

-- `pct`
abbrev pub place : ℕ → ℕ → ℕ → ℕ
place t0 now t = min now (max t0 t) - t0

abbrev pub end_of : ℕ → List Event → ℕ
end_of now [] = now
end_of now (e ∷ es) = e.t

-- One round of the loop
abbrev pub segment : ℕ → ℕ → Event → ℕ → List Segment → List Segment
segment t0 now e end rest =
    let start = max e.t t0 in
    if leb end start
    then rest
    else record {
      left = place t0 now start;
      width = place t0 now end - place t0 now start;
      up = some e.up;
    }
      ∷ rest

unfoldable pub segments : ℕ → ℕ → List Event → List Segment
segments t0 now [] = []
segments t0 now (e ∷ es) = segment t0 now e (end_of now es) (segments t0 now es)

-- `!clipped.length || clipped[0].t > t0`
abbrev pub starts_unknown : ℕ → List Event → Bool
starts_unknown t0 [] = true
starts_unknown t0 (e ∷ es) = ltb t0 e.t

unfoldable pub band : ℕ → ℕ → List Event → List Segment
unfolding segments
band t0 now events =
    let clipped = filter (λ e. ltb e.t now) events in
    if starts_unknown t0 clipped
    then record { left = 0; width = place t0 now (end_of now clipped); up = none }
      ∷ segments t0 now clipped
    else segments t0 now clipped
