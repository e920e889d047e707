-- ===== src/Examples/SetupExamples.antt =====
-- Tests and examples for the first-run wizard.
use proxyforward.Common.{◌≡◌, refl, Bool, true, false, some, [], ◌∷◌, ◌++◌, arith}
use proxyforward.Common.Decimal.{Text, codes}
use proxyforward.Common.Lists.{get_elem?}
use proxyforward.Setup.{parse_pairing, pairing_code}
use proxyforward.Setup.Pairing.{ipv6, parse_pairing-code}
use proxyforward.Setup.Ticket.{
  Job, Ticket, blank, mount, issue, answer, fire, set_reusable, ended_timer,
}
use proxyforward.Setup.Ticket.Safe.{IsSafe, Step, Reach, Reach-IsSafe}
use proxyforward.Setup.Ticket.Retries.{rounds, waiting, rounds-issue, fire-set_reusable}
use proxyforward.Setup.Acts.{gateway, start, choose, start_gateway}
use proxyforward.Setup.Acts.Calls.{IsOne, Reach-IsOne, succeed-deep_link, enter_twice}
use proxyforward.Setup.Acts.Calls

abbrev pin_text : Text
pin_text = codes "0123456789abcdef0123456789abcdef0123456789abcdef0123456789abcdef"

parse_pairing-code_example :
    parse_pairing
      ((32 ∷ []) ++ (pairing_code (codes "[::1]") 8474 (codes "tok") pin_text ++ (10 ∷ [])))
    ≡ some (record { host = codes "::1"; port = 8474 })
parse_pairing-code_example =
    parse_pairing-code (32 ∷ []) (10 ∷ []) (ipv6 (codes "::1")) 8474 (codes "tok") pin_text
      (refl, tt) (refl, tt) (omega arith, (refl, (refl, (refl, tt)))) (omega arith) (omega arith)
      (omega arith, (refl, (refl, (refl, tt)))) (refl, refl)

-- Every code is an answer here.
abbrev AnyAnswer : Bool → Text → Type 0
AnyAnswer r c = Unit

Reach-IsSafe_example : IsSafe AnyAnswer (set_reusable true mount)
Reach-IsSafe_example = Reach-IsSafe AnyAnswer (Reach.next Reach.here (Step.toggled true))

rounds-issue_example :
    (rounds 20 (codes "no listener") (issue true blank) ≡ waiting 20 (issue true blank))
    × (rounds 21 (codes "no listener") (issue true blank) ≡ record (issue true blank) {
      busy = false;
      err = codes "no listener";
      calls = [];
      timers = [];
    })
rounds-issue_example = rounds-issue true (codes "no listener") blank 20 refl refl refl (omega arith)

abbrev retry : Job
retry = record { run = 1; n = 1; reusable = true }

abbrev retrying : Ticket
retrying = record blank { run = 1; busy = true; reusable = true; timers = retry ∷ [] }

fire-set_reusable_example :
    (get_elem? (set_reusable false retrying).timers 0 ≡ some retry)
    × ((fire retry (ended_timer 0 (set_reusable false retrying))).calls
        ≡ (set_reusable false retrying).calls ++ retry ∷ [])
    × ((code : Text)
        → answer retry code (fire retry (ended_timer 0 (set_reusable false retrying)))
          ≡ fire retry (ended_timer 0 (set_reusable false retrying)))
fire-set_reusable_example = fire-set_reusable 0 retry retrying refl refl refl

Reach-IsOne_example :
    IsOne (start_gateway (choose gateway start)).busy (start_gateway (choose gateway start)).pending
Reach-IsOne_example = Reach-IsOne (
    Calls.Reach.next (Calls.Reach.next Calls.Reach.first (Calls.Step.chosen gateway))
      Calls.Step.started)
