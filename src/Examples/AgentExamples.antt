-- ===== src/Examples/AgentExamples.antt =====
-- Examples for the roster of agents, its events and its scopes.
use proxyforward.Common.{
  ℕ, ◌≡◌, refl, Bool, true, false, none, some, map, List, [], ◌∷◌, arith, inl,
}
use proxyforward.Common.Int.{pos}
use proxyforward.Common.Lists.{filter}
use proxyforward.Common.Sort.{IsArranged}
use proxyforward.Common.Decimal.{Text, codes}
use proxyforward.Agents.{Seg, good, bad, Row}
use proxyforward.Agents.Conflicts.{GwEvent, conflicts, key_of, best}
use proxyforward.Agents.Conflicts.Newest.{has_key, open_seq, IsNewer, conflicts-IsNewest}
use proxyforward.Agents.Events.{Pull, Tail, capped, or_none, enable, answer, pull}
use proxyforward.Agents.Log.{Ascends, after}
use proxyforward.Agents.Synced.{World, without, Step, Reach, IsCurrent}
use proxyforward.Agents.Refines.{unmounted, Reach-IsCurrent}
use proxyforward.Agents.CatchUp.{Reach-answer}

abbrev row : Text → Bool → Seg → Row
row name on score = record {
  view = record {
    agent_id = name;
    nickname = name;
    enrolled = true;
    revoked = false;
    scope_ports = [];
    scope_tunnels = [];
    issued_at_ms = 0;
    connected = on;
    hostname = [];
    remote_ip = [];
    link_up_since_ms = 0;
    tunnels = 1;
  };
  live = some (record {
    agent_id = name;
    hostname = [];
    lan_ips = [];
    remote_ip = [];
    link_up_since_ms = 0;
    rtt_millis = pos 9;
    jitter_millis = pos 1;
    packet_loss_pct = pos 0;
    health_score = some score;
    link_bytes_in = 5;
    link_bytes_out = 6;
    tunnels = 1;
    players = 2;
  });
}

-- Offline, then two that are online.
abbrev roster : List Row
roster =
    row (codes "den") false good
    ∷ row (codes "attic") true good
    ∷ row (codes "cellar") true bad
    ∷ []

abbrev event : ℕ → Text → GwEvent
event n kind = record {
  seq = n;
  time_ms = 0;
  kind = kind;
  agent_id = some (codes "den");
  tunnel_id = none;
  message = [];
  requested_port = some 25565;
  actual_port = none;
}

abbrev gateway_events : List GwEvent
gateway_events =
    event 1 (codes "port_conflict")
    ∷ event 2 (codes "scope_denied")
    ∷ event 3 (codes "port_conflict")
    ∷ []

conflicts-IsNewest_example :
    (map
        (λ e. e.seq)
        (filter
          (has_key (key_of (event 3 (codes "port_conflict"))))
          (conflicts gateway_events (2 ∷ [])))
      ≡ open_seq (2 ∷ []) (best none (key_of (event 3 (codes "port_conflict"))) gateway_events))
    × IsArranged IsNewer (conflicts gateway_events (2 ∷ []))
conflicts-IsNewest_example =
    conflicts-IsNewest gateway_events (2 ∷ []) (key_of (event 3 (codes "port_conflict")))

-- A log of two events, of which the first pull of the screen is told.
abbrev log : List ℕ
log = 1 ∷ 2 ∷ []

abbrev first_pull : Pull
first_pull = record { effect = 1; since = 0 }

abbrev asking : World
asking = record { tail = enable true (unmounted log).tail; log = log }

abbrev told : World
told = record {
  tail = answer first_pull log (record (enable true (unmounted log).tail) { pulls = [] });
  log = log;
}

asking_run : Reach (unmounted log) asking
asking_run = Reach.next Reach.here (Step.enabled true (inl refl))

told_run : Reach (unmounted log) told
unfolding enable pull
told_run = Reach.next asking_run (Step.answered [] first_pull [] refl)

log-Ascends : Ascends 0 log
log-Ascends = (omega arith, (omega arith, tt))

Reach-IsCurrent_example : IsCurrent told
Reach-IsCurrent_example = Reach-IsCurrent log-Ascends told_run

Reach-answer_example :
    or_none (answer first_pull (after 0 log) (without [] [] asking.tail)).events ≡ capped log
unfolding enable pull
Reach-answer_example = Reach-answer log-Ascends asking_run [] first_pull [] refl refl refl

abbrev watching : Tail
watching = record { events = some (4 ∷ []); last_seq = 4; effect = 1; alive = true; pulls = [] }
