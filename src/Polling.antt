-- ===== src/Polling.antt =====
-- The polling hooks: `usePolled` of frontend/src/hooks.ts, on which frontend/src/players.ts and
-- frontend/src/analytics.ts build, with `useBandwidthHistory` of frontend/src/history.ts, which does
-- the same by hand. One mounted hook is a state, and the steps are what the runtime lets happen: the
-- key changes, the interval fires, an answer arrives late or never, the hook unmounts, and another
-- hook of the same endpoint writes the shared cache. A fetch is the number of the effect that made
-- it, with its key; the answers are whatever the backend sends.
pub mod Fresh
pub mod Debounced
use proxyforward.Common.{ℕ, suc, Bool, true, false, Option, none, some, List, [], ◌∷◌}
use proxyforward.Common.Tests.{◌==◌, if◌then◌else◌}

module _ (K V : Type 0) (same : K → K → Bool) where
  -- A module-level cache, a `Map`.
  abbrev pub Cache : Type 0
  Cache = K → Option V

  abbrev pub put : K → V → Cache → Cache
  put k v m j = if same k j then some v else m j

  pub record Fetch : Type 0 where
    pub effect : ℕ
    pub key : K

  -- `alive` is that of the last effect, whose number is `effect`; the earlier effects are dead.
  pub record Poll : Type 0 where
    pub cache : Cache
    pub shown : Option V
    pub key : Option K
    pub effect : ℕ
    pub alive : Bool
    pub flights : List Fetch

  -- `fetchOnce`
  abbrev pub fetch_once : K → Poll → Poll
  fetch_once k p = record p { flights = (record { effect = p.effect; key = k }) ∷ p.flights }

  -- The effect, run for a new key after the cleanup of the last one: a null key shows nothing and
  -- pauses; any other is painted from the cache and fetched.
  unfoldable pub rekey : Option K → Poll → Poll
  rekey none p = record p { key = none; shown = none; effect = suc p.effect; alive = false }
  rekey (some k) p =
      fetch_once k
        (record p { key = some k; shown = p.cache k; effect = suc p.effect; alive = true })

  -- The interval of a live effect fires, with the key of its effect.
  unfoldable pub fire_at : Option K → Poll → Poll
  fire_at none p = p
  fire_at (some k) p = if p.alive then fetch_once k p else p

  unfoldable pub fire : Poll → Poll
  unfolding fire_at
  fire p = fire_at p.key p

  -- The `then` of a fetch: only a live effect takes the answer.
  unfoldable pub answer : Fetch → V → Poll → Poll
  answer f v p =
      if p.alive
      then (if f.effect == p.effect
          then record p { cache = put f.key v p.cache; shown = some v }
          else p)
      else p

  -- The cleanup at unmount.
  unfoldable pub unmount : Poll → Poll
  unmount p = record p { alive = false }

  -- Another hook of the endpoint caches its answer.
  unfoldable pub foreign : K → V → Poll → Poll
  foreign k v p = record p { cache = put k v p.cache }
