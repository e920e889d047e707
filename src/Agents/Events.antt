-- ===== src/Agents/Events.antt =====
-- `useGatewayEvents` of frontend/src/screens/Agents.tsx: the tail of the gateway's events, pulled
-- every 3 s from the last one that is known. An answer is a list of events, of which only the
-- numbers matter here; a pull is the number of the effect that made it and what it asked for.
use proxyforward.Common.{
  ℕ, zero, suc, ◌-◌, Bool, true, false, Option, none, some, List, [], ◌∷◌, ◌++◌,
}
use proxyforward.Common.Tests.{◌==◌, if◌then◌else◌}
use proxyforward.Common.Lists.{length}

-- The cap of the tail
abbrev pub events_cap : ℕ
events_cap = 200

-- `slice(n)`, at n from 0 on
unfoldable pub drop : ℕ → List ℕ → List ℕ
drop n [] = []
drop zero (x ∷ xs) = x ∷ xs
drop (suc n) (x ∷ xs) = drop n xs

-- `slice(-EVENTS_CAP)`
unfoldable pub capped : List ℕ → List ℕ
unfolding drop
capped xs = drop (length xs - events_cap) xs

abbrev pub last_or : ℕ → List ℕ → ℕ
last_or d [] = d
last_or d (x ∷ xs) = last_or x xs

pub record Pull : Type 0 where
  pub effect : ℕ
  pub since : ℕ

-- `effect` counts the effects, `alive` is that of the last one.
pub record Tail : Type 0 where
  pub events : Option (List ℕ)
  pub last_seq : ℕ
  pub effect : ℕ
  pub alive : Bool
  pub pulls : List Pull

-- `pull`, up to its `await`
unfoldable pub pull : Tail → Tail
pull t = record t { pulls = (record { effect = t.effect; since = t.last_seq }) ∷ t.pulls }

-- The effect, at each change of `enabled`.
unfoldable pub enable : Bool → Tail → Tail
unfolding pull
enable false t = record t { events = none; last_seq = 0; effect = suc t.effect; alive = false }
enable true t = pull (record t { effect = suc t.effect; alive = true })

-- The interval of a live effect.
unfoldable pub fire : Tail → Tail
unfolding pull
fire t = if t.alive then pull t else t

-- `prev ?? []`
abbrev pub or_none : Option (List ℕ) → List ℕ
or_none none = []
or_none (some xs) = xs

-- The rest of a pull that is answered.
unfoldable pub take : List ℕ → Tail → Tail
unfolding capped
take [] t = record t { events = some (or_none t.events) }
take (x ∷ xs) t = record t {
  events = some (capped (or_none t.events ++ x ∷ xs));
  last_seq = last_or x xs;
}

unfoldable pub answer : Pull → List ℕ → Tail → Tail
unfolding take
answer p fresh t = if t.alive then (if p.effect == t.effect then take fresh t else t) else t

-- The rest of a pull that fails.
unfoldable pub fail : Pull → Tail → Tail
fail p t =
    if t.alive
    then (if p.effect == t.effect then record t { events = some (or_none t.events) } else t)
    else t
