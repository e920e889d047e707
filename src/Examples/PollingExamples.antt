-- ===== src/Examples/PollingExamples.antt =====
-- Examples for the polling hooks.
use mathlib.Core.List.{Memᴰ}
use proxyforward.Common.{ℕ, ◌*◌, ◌≡◌, refl, false, none, some, [], ◌∷◌}
use proxyforward.Common.Tests.{◌==◌, ==_iff}
use proxyforward.Polling.{Fetch, Poll, rekey, answer}
use proxyforward.Polling.Fresh.{Step, Reach, IsFresh, Reach-IsFresh}

-- An endpoint that sends the double of its key.
abbrev Doubles : ℕ → ℕ → Type 0
Doubles k v = v ≡ 2 * k

abbrev mounted : Poll ℕ ℕ ◌==◌
mounted = record {
  cache = λ k. none;
  shown = none;
  key = none;
  effect = 0;
  alive = false;
  flights = [];
}

mounted-IsFresh : IsFresh ℕ ℕ ◌==◌ ==_iff Doubles mounted
mounted-IsFresh = record { caches = λ k. tt; shows = tt; currents = tt }

abbrev asked : Poll ℕ ℕ ◌==◌
asked = rekey ℕ ℕ ◌==◌ (some 4) mounted

abbrev request : Fetch ℕ ℕ ◌==◌
request = record { effect = 1; key = 4 }

asked_flights : asked.flights ≡ request ∷ []
unfolding rekey
asked_flights = refl

run : Reach ℕ ℕ ◌==◌ ==_iff Doubles mounted (answer ℕ ℕ ◌==◌ request 8 asked)
unfolding rekey
run =
    Reach.next (Reach.next Reach.here (Step.rekeyed (some 4)))
      (Step.answered request 8 (Memᴰ.head refl) refl)

Reach-IsFresh_example : IsFresh ℕ ℕ ◌==◌ ==_iff Doubles (answer ℕ ℕ ◌==◌ request 8 asked)
Reach-IsFresh_example = Reach-IsFresh ℕ ℕ ◌==◌ ==_iff Doubles mounted-IsFresh run
