-- ===== src/Setup/Ticket.antt =====
-- `GatewayLive` of frontend/src/screens/Wizard.tsx: the pairing code is issued on mount, when the
-- toggle of a reusable code flips and by "New code". A failed call is tried again after 250 ms, up
-- to 20 times. Each issue is a run of one effect; the next run and the unmount cancel it.
pub mod Jobs
pub mod Safe
pub mod Retries
use proxyforward.Common.{
  ℕ, zero, suc, Bool, true, false, not, ◌&&◌, Option, none, some, List, [], ◌∷◌, ◌++◌,
}
use proxyforward.Common.Tests.{◌==◌, ltb, if◌then◌else◌}
use proxyforward.Common.Lists.{get_elem?}
use proxyforward.Common.Decimal.{Text}

-- An attempt: `poll(n)` of a run
pub record Job : Type 0 where
  pub run : ℕ
  pub n : ℕ
  pub reusable : Bool

-- `calls` are those of IssuePairingCode with no answer yet, `timers` the retries that wait.
pub record Ticket : Type 0 where
  pub code : Text
  pub err : Text
  pub busy : Bool
  pub reusable : Bool
  pub run : ℕ
  pub mounted : Bool
  pub calls : List Job
  pub timers : List Job

abbrev pub same_bool : Bool → Bool → Bool
same_bool true b = b
same_bool false b = not b

abbrev pub remove_at {ℓ} : {A : Type ℓ} → List A → ℕ → List A
remove_at [] i = []
remove_at (x ∷ xs) zero = xs
remove_at (x ∷ xs) (suc i) = x ∷ remove_at xs i

-- The effect, at the values of its run
unfoldable pub issue : Bool → Ticket → Ticket
issue reusable s = record s {
  code = [];
  err = [];
  busy = true;
  reusable = reusable;
  run = suc s.run;
  calls = s.calls ++ (record { run = suc s.run; n = 0; reusable = reusable }) ∷ [];
}

abbrev pub blank : Ticket
blank = record {
  code = [];
  err = [];
  busy = false;
  reusable = false;
  run = 0;
  mounted = true;
  calls = [];
  timers = [];
}

unfoldable pub mount : Ticket
unfolding issue
mount = issue false blank

-- The button "New code" is disabled while a code is issued.
unfoldable pub new_code : Ticket → Ticket
unfolding issue
new_code s = if s.busy then s else issue s.reusable s

-- `setReusable`: the effect runs again when the value has changed.
unfoldable pub set_reusable : Bool → Ticket → Ticket
unfolding issue
set_reusable v s = if same_bool v s.reusable then s else issue v s

-- `!cancelled`
abbrev pub is_live : Job → Ticket → Bool
is_live j s = s.mounted && j.run == s.run

-- `then`
unfoldable pub answer : Job → Text → Ticket → Ticket
answer j code s = if is_live j s then record s { code = code; busy = false } else s

-- `catch`
unfoldable pub fail : Job → Text → Ticket → Ticket
fail j e s =
    if is_live j s
    then (if ltb j.n 20
        then record s { timers = s.timers ++ (record j { n = suc j.n }) ∷ [] }
        else record s { err = e; busy = false })
    else s

-- A timer, whether its run has been cancelled or not
unfoldable pub fire : Job → Ticket → Ticket
fire j s = record s { calls = s.calls ++ j ∷ [] }

-- The dismissed banner
unfoldable pub dismiss : Ticket → Ticket
dismiss s = record s { err = [] }

unfoldable pub unmount : Ticket → Ticket
unmount s = record s { mounted = false }

-- What ends is no longer under way.
abbrev pub ended_call : ℕ → Ticket → Ticket
ended_call i s = record s { calls = remove_at s.calls i }

abbrev pub ended_timer : ℕ → Ticket → Ticket
ended_timer i s = record s { timers = remove_at s.timers i }
