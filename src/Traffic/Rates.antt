-- ===== src/Traffic/Rates.antt =====
-- The rates of the traffic screen, `currentRates` of frontend/src/screens/Traffic.tsx, over the
-- baselines that the module keeps between the renders. The clock is read once, at the start.
pub mod Live
use proxyforward.Common.{
  ℕ, ◌+◌, ◌-◌, ◌≡◌, refl, true, false, Bool, Option, none, some, List, [], ◌∷◌,
}
use proxyforward.Common.Tests.{leb, if◌then◌else◌, Bool-cases}
use proxyforward.Common.Lists.{filter, All}
use proxyforward.Common.Maps.{Entry, entry, is_some, get, put}
use proxyforward.Common.Decimal.{Text}
use proxyforward.Traffic.{Conn, strip_port}

-- A rate: so many bytes in so many milliseconds. That of a client which is new is 0.
pub record Rate : Type 0 where
  pub bytes : ℕ
  pub ms : ℕ

pub record Baseline : Type 0 where
  pub t : ℕ
  pub bytes : ℕ
  pub rate : Rate

abbrev pub or_zero : Option ℕ → ℕ
or_zero none = 0
or_zero (some n) = n

-- `byIP`: the bytes of the live connections of each address
unfoldable pub add_all : List (Entry ℕ) → List Conn → List (Entry ℕ)
add_all by_ip [] = by_ip
add_all by_ip (c ∷ cs) =
    let ip = strip_port c.client_addr in
    add_all (put ip ((or_zero (get ip by_ip) + c.bytes_in) + c.bytes_out) by_ip) cs

abbrev pub zero_rate : Rate
zero_rate = record { bytes = 0; ms = 1 }

-- The baseline of an address after a look at it; its rate is the one that is shown. A total that
-- has fallen gives 0, as `Math.max` does.
unfoldable pub look : ℕ → ℕ → Option Baseline → Baseline
look now bytes none = record { t = now; bytes = bytes; rate = zero_rate }
look now bytes (some prev) =
    if leb 900 (now - prev.t)
    then record {
      t = now;
      bytes = bytes;
      rate = record { bytes = bytes - prev.bytes; ms = now - prev.t };
    }
    else prev

pub record Rates : Type 0 where
  pub state : List (Entry Baseline)
  pub rates : List (Entry Rate)

-- The loop over `byIP`
unfoldable pub look_all : ℕ → List (Entry ℕ) → Rates → Rates
unfolding look
look_all now [] r = r
look_all now (e ∷ es) r =
    let seen = look now e.value (get e.key r.state) in
    look_all now es (record { state = put e.key seen r.state; rates = put e.key seen.rate r.rates })

-- The deletion of what is no longer live
unfoldable pub forget : List (Entry ℕ) → Rates → Rates
forget by_ip r = record r { state = filter (λ e. is_some (get e.key by_ip)) r.state }

unfoldable pub current_rates : ℕ → List Conn → List (Entry Baseline) → Rates
unfolding add_all look_all forget
current_rates now conns state =
    let by_ip = add_all [] conns in
    forget by_ip (look_all now by_ip (record { state = state; rates = [] }))
