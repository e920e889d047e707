-- ===== src/Analytics/Replay.antt =====
-- `SessionReplay` of frontend/src/screens/Analytics.tsx: the domain and the step of its scrubber, and
-- the samples that are nearest to the playhead. Times and bytes are not negative; an average that is
-- not known is.
pub mod Nearest
use proxyforward.Common.{
  ℕ, ◌-◌, ◌+◌, Bool, true, false, Option, none, some, List, [], ◌∷◌, ◌++◌, map,
}
use proxyforward.Common.Tests.{◌==◌, ltb, leb, if◌then◌else◌}
use proxyforward.Common.Int.{ℤ}
use proxyforward.Common.Lists.{filter}
use proxyforward.Common.Sort.{sort_by}

-- `TrafficPoint` and `LatencyPoint`
pub record TrafficPoint : Type 0 where
  pub t : ℕ
  pub bytes_in : ℕ
  pub bytes_out : ℕ

pub record LatencyPoint : Type 0 where
  pub t : ℕ
  pub avg : ℤ
  pub min : ℤ
  pub max : ℤ

-- `Math.abs(a - b)`
abbrev pub distance : ℕ → ℕ → ℕ
distance a b = (a - b) + (b - a)

-- The best one so far, with its distance
pub record Best {ℓ} (A : Type ℓ) : Type ℓ where
  pub point : A
  pub far : ℕ

abbrev pub better {ℓ} : {A : Type ℓ} → A → ℕ → Option (Best A) → Option (Best A)
better p d none = some (record { point = p; far = d })
better p d (some b) = if ltb d b.far then some (record { point = p; far = d }) else some b

unfoldable pub nearest_from {ℓ} :
    {A : Type ℓ} → (A → ℕ) → ℕ → Option (Best A) → List A → Option (Best A)
nearest_from time cursor best [] = best
nearest_from time cursor best (p ∷ ps) =
    nearest_from time cursor (better p (distance (time p) cursor) best) ps

abbrev pub point_of {ℓ} : {A : Type ℓ} → Option (Best A) → Option A
point_of none = none
point_of (some b) = some b.point

-- `nearest`
unfoldable pub nearest {ℓ} : {A : Type ℓ} → (A → ℕ) → ℕ → List A → Option A
unfolding nearest_from
nearest time cursor ps = point_of (nearest_from time cursor none ps)

-- `new Set(ts)`
abbrev pub distinct : List ℕ → List ℕ
distinct [] = []
distinct (t ∷ ts) = let rest = distinct ts in t ∷ filter (λ u. if u == t then false else true) rest

abbrev pub least : Option ℕ → ℕ → Option ℕ
least none g = some g
least (some s) g = some (if leb s g then s else g)

-- The least gap of times that are sorted; none is Infinity.
abbrev pub gaps : Option ℕ → ℕ → List ℕ → Option ℕ
gaps step t [] = step
gaps step t (u ∷ us) = gaps (least step (u - t)) u us

abbrev pub last_of : ℕ → List ℕ → ℕ
last_of t [] = t
last_of t (u ∷ us) = last_of u us

pub record Domain : Type 0 where
  pub min : ℕ
  pub max : ℕ
  pub step : ℕ

abbrev pub or_step : Option ℕ → ℕ
or_step none = 15000
or_step (some s) = s

abbrev pub domain_of : List ℕ → Option Domain
domain_of [] = none
domain_of (t ∷ ts) = some (record { min = t; max = last_of t ts; step = or_step (gaps none t ts) })

abbrev pub has_two : List ℕ → Bool
has_two [] = false
has_two (t ∷ []) = false
has_two (t ∷ u ∷ us) = true

-- `domain`, of the times of both series
unfoldable pub domain : List TrafficPoint → List LatencyPoint → Option Domain
domain traffic rtt =
    let ts = map (λ p. p.t) traffic ++ map (λ p. p.t) rtt in
    if has_two ts then domain_of (sort_by (λ a b. ltb a b) (distinct ts)) else none
