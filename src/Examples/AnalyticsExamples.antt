-- ===== src/Examples/AnalyticsExamples.antt =====
-- Tests and examples for the analytics screen and the ticker.
use proxyforward.Common.{
  ℕ, ◌+◌, ◌-◌, ◌/◌, ◌≡◌, refl, Bool, true, false, some, none, List, [], ◌∷◌, arith,
}
use proxyforward.Common.Tests.{◌==◌, ==_iff}
use proxyforward.Analytics.Uptime.{Event, band}
use proxyforward.Analytics.Uptime.Tiled.{last_state, shown_at, band-shown}
use proxyforward.Analytics.Replay.{TrafficPoint, domain, nearest}
use proxyforward.Analytics.Replay.Nearest.{IsNearest, nearest-IsNearest}
use proxyforward.Common.Sort.{sort_by, sort_into, insert}
use proxyforward.Ticker.{Ticker, mount, render, frame}
use proxyforward.Ticker.Settled.{IsSettled, Reach, Step, Reach-IsSettled, render-stuck}

abbrev two_events : List Event
two_events = (record { t = 100; up = true }) ∷ (record { t = 500; up = false }) ∷ []

band-shown_example :
    shown_at (300 - 50) (band 50 1000 two_events) ≡ some (last_state none two_events 300)
band-shown_example =
    band-shown 50 1000 300 two_events ((omega arith, tt), (tt, tt)) (omega arith) (omega arith)

nearest-IsNearest_example :
    (r : ℕ) × (nearest (λ t. t) 40 (15 ∷ 30 ∷ 45 ∷ 35 ∷ []) ≡ some r)
    × IsNearest (λ t. t) 40 r (15 ∷ 30 ∷ 45 ∷ 35 ∷ [])
nearest-IsNearest_example = nearest-IsNearest (λ t. t) 40 15 (30 ∷ 45 ∷ 35 ∷ [])

abbrev sample : ℕ → TrafficPoint
sample t = record { t = t; bytes_in = 1; bytes_out = 2 }

domain_steps :
    domain (sample 45 ∷ sample 15 ∷ sample 30 ∷ []) []
    ≡ some (record { min = 15; max = 45; step = 15 })
unfolding domain sort_by sort_into insert
domain_steps = refl

abbrev same_ℕ : ℕ → ℕ → Bool
same_ℕ a b = a == b

-- Half of the way, at any time
abbrev halfway : ℕ → ℕ → ℕ → ℕ
halfway a b t = (a + b) / 2

Reach-IsSettled_example : IsSettled ℕ same_ℕ ==_iff halfway 500 false (
    frame ℕ same_ℕ halfway 500 false 600
      (render ℕ same_ℕ halfway 500 false 0 100 (mount ℕ same_ℕ halfway 500 false 7)))
Reach-IsSettled_example = Reach-IsSettled ℕ same_ℕ ==_iff halfway 500 false {v = 7} (
    Reach.next (Reach.next Reach.here (Step.renders 0 100 (unfold mount in refl)))
      (Step.frames 600))

abbrev gliding : Ticker ℕ same_ℕ halfway 500 false
gliding = record { value = 100; display = 50; from = 0; run = some 0 }

render-stuck_example :
    ((render ℕ same_ℕ halfway 500 false 200 0 gliding).value ≡ 0)
    × ((render ℕ same_ℕ halfway 500 false 200 0 gliding).display ≡ 50)
    × (frame ℕ same_ℕ halfway 500 false 900 (render ℕ same_ℕ halfway 500 false 200 0 gliding)
        ≡ render ℕ same_ℕ halfway 500 false 200 0 gliding)
render-stuck_example = render-stuck ℕ same_ℕ ==_iff halfway 500 false gliding 200 900 refl refl
